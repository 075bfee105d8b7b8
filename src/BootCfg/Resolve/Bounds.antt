-- ===== src/BootCfg/Resolve/Bounds.antt =====
-- What bootCfgResolveEntry copies fits its buffers, and a parsed configuration has a default entry.
use bongos.Common.{
  ℕ, zero, suc, ◌≤◌, ◌<◌, ◌≡◌, refl, inl, inr, Option, none, some, List, [], ◌∷◌, ltb, length, take,
  drop, get_elem?, arith, Bool-cases,
}
use bongos.BootCfg.{skip_bom, path_max}
use bongos.BootCfg.Parse.{BootCfgSpan, BootCfgScope, BootCfgEntryDef, BootCfg, cfg_ok, parse}
use bongos.BootCfg.Parse.Result.{parse-IsParsed}
use bongos.BootCfg.Resolve.{
  BootCfgEntry, name_size, cmdline_max, default_kernel, copy_len, copy_span, scope_with,
  resolve_from, resolve_entry,
}

-- The strings fit their buffers with the NUL behind them.
pub record FitsBuffers (e : BootCfgEntry) : Type 0 where
  pub name_fits : length e.name < name_size
  pub kernel_fits : length e.kernel < path_max
  pub initrd_fits : length e.initrd < path_max
  pub cmdline_fits : length e.cmdline < cmdline_max

length-take : (n : ℕ) (xs : List ℕ) → length (take n xs) ≤ n
length-take zero xs = omega arith
length-take (suc n) [] = omega arith
length-take (suc n) (x ∷ xs) = omega (arith, length-take n xs)

copy_span-bound :
    (text : List ℕ) (span : BootCfgSpan) (size : ℕ)
    → 0 < size
    → length (copy_span text span size) < size
unfolding copy_span copy_len
copy_span-bound text span size h =
    let l = length-take (copy_len span size) (drop span.off text) in ground (arith, l)

module _ (size : ℕ) (text default : List ℕ) (pick : BootCfgScope → BootCfgSpan) where
  picked-bound :
      (o : Option BootCfgScope)
      → 0 < size
      → length default < size
      → length (elim o [ none ↦ default | some s ↦ copy_span text (pick s) size ]) < size
  picked-bound none h d = d
  picked-bound (some s) h d = copy_span-bound text (pick s) size h

resolve_from-FitsBuffers :
    (text : List ℕ) (e : BootCfgEntryDef) (global : BootCfgScope)
    → FitsBuffers (resolve_from text e global)
unfolding resolve_from
resolve_from-FitsBuffers text e global = record {
  name_fits = elim (Bool-cases (ltb 0 e.name.len)) [
    | inl named ↦ rw named (copy_span-bound text e.name name_size (omega arith))
    | inr unnamed ↦ rw unnamed (omega arith)
  ];
  kernel_fits =
      picked-bound path_max text default_kernel (λ s. s.kernel) (scope_with 0 e.keys global)
        (omega arith) (omega arith);
  initrd_fits =
      picked-bound path_max text [] (λ s. s.initrd) (scope_with 1 e.keys global) (omega arith)
        (omega arith);
  cmdline_fits =
      picked-bound cmdline_max text [] (λ s. s.cmdline) (scope_with 2 e.keys global) (omega arith)
        (omega arith);
}

get_elem?-total :
    {A : Type 0} (xs : List A) (i : ℕ) → i < length xs → (x : A) × (get_elem? xs i ≡ some x)
get_elem?-total [] i h = absurd (omega arith)
get_elem?-total (x ∷ xs) zero h = (x, refl)
get_elem?-total (x ∷ xs) (suc i) h = get_elem?-total xs i (omega arith)

-- The default entry of a file that bootCfgParse accepts resolves, and its strings fit their
-- buffers.
pub resolve_entry-default :
    (text : List ℕ) (cfg : BootCfg)
    → parse text ≡ cfg_ok cfg
    → (e : BootCfgEntry) × (resolve_entry text cfg cfg.default_index ≡ some e) × FitsBuffers e
unfolding resolve_entry
resolve_entry-default text cfg p =
    let (d, found) =
      get_elem?-total cfg.entries cfg.default_index (parse-IsParsed text cfg p).default_in in
    let e = resolve_from (skip_bom text) d cfg.global in
    (e, rw (resolve_entry, found) refl, resolve_from-FitsBuffers (skip_bom text) d cfg.global)
