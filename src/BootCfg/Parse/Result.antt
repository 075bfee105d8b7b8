-- ===== src/BootCfg/Parse/Result.antt =====
-- What bootCfgParse promises of its output.
use bongos.Common.{
  ℕ, ◌+◌, ◌≤◌, ◌<◌, ◌≡◌, refl, ◌⊎◌, inl, inr, Option, none, some, List, [], ◌∷◌, ltb, length,
  reverse_onto, arith, Bool-cases, Option-cases, subst,
}
use bongos.BootCfg.{lines, nul_line, skip_bom}
use bongos.BootCfg.Parse.{
  BootCfgEntryDef, CfgResult, CfgReason, cfg_ok, cfg_err, CfgDefault, by_index, by_name, CfgState,
  BootCfg, max_entries, parse_lines, empty_state, entries_of, find_name, resolve_default, bytes_at,
  file_max, finish, parse_text, parse,
}
use bongos.BootCfg.Parse.Keeps.{IsTimeout, TimeoutFits, IsGood, Keeps, kept, parse_lines-Keeps}

-- What bootCfgParse promises of a file that it accepts.
pub record IsParsed (cfg : BootCfg) : Type 0 where
  pub has_entry : 0 < length cfg.entries
  pub entries_fit : length cfg.entries ≤ max_entries
  pub default_in : cfg.default_index < length cfg.entries
  pub timeout_fits : IsTimeout cfg.timeout_sec

length-reverse_onto :
    (xs acc : List BootCfgEntryDef) → length (reverse_onto xs acc) ≡ length xs + length acc
length-reverse_onto [] acc = omega arith
length-reverse_onto (x ∷ xs) acc = omega (arith, length-reverse_onto xs (x ∷ acc))

entries_of-bounds :
    (es : List BootCfgEntryDef)
    → length es ≤ max_entries
    → (0 < length (entries_of es)) × (length (entries_of es) ≤ max_entries)
unfolding entries_of
entries_of-bounds [] h = (omega arith, omega arith)
entries_of-bounds (e ∷ es) h =
    let l = length-reverse_onto es (e ∷ []) in (omega (arith, l), omega (arith, l))

find_name-bound :
    (text name : List ℕ) (i j : ℕ) (es : List BootCfgEntryDef)
    → find_name text name i es ≡ some j
    → j < i + length es
unfolding find_name
find_name-bound text name i j [] e = absurd (cc)
find_name-bound text name i j (d ∷ es) e = ground (arith, find_name-bound text name (i + 1) j es)

resolve_default-bound :
    (text : List ℕ) (d : Option (CfgDefault × ℕ)) (es : List BootCfgEntryDef) (i : ℕ)
    → 0 < length es
    → resolve_default text d es ≡ cfg_ok i
    → i < length es
unfolding resolve_default
resolve_default-bound text none es i h e = ground (arith)
resolve_default-bound text (some (by_index idx, line)) es i h e = ground arith
resolve_default-bound text (some (by_name span, line)) es i h e =
    elim (Option-cases (find_name text (bytes_at text span) 0 es)) [
      | inl none' ↦ absurd (ground arith)
      | inr (j, found) ↦
          let b = find_name-bound text (bytes_at text span) 0 j es found in ground arith
    ]

CfgResult-cases :
    {A : Type 0} (r : CfgResult A)
    → ((line : ℕ) × (reason : CfgReason) × (r ≡ cfg_err line reason)) ⊎ ((a : A) × (r ≡ cfg_ok a))
CfgResult-cases (cfg_ok a) = inr (a, refl)
CfgResult-cases (cfg_err line reason) = inl (line, reason, refl)

finish-IsParsed :
    (text : List ℕ) (s : CfgState) (cfg : BootCfg)
    → IsGood s
    → finish text s ≡ cfg_ok cfg
    → IsParsed cfg
unfolding finish
finish-IsParsed text s cfg g e =
    let entries = entries_of s.entries_back in
    let bounds = entries_of-bounds s.entries_back g.0 in
    elim (CfgResult-cases (resolve_default text s.default entries)) [
      | inl (line, reason, failed') ↦ absurd (ground arith)
      | inr (index, found) ↦
          let new : BootCfg = record {
            global = s.global;
            entries = entries;
            timeout_sec = elim s.timeout [ none ↦ 0 | some t ↦ t ];
            default_index = index;
            unknown_key_count = s.unknown_key_count;
            first_unknown_key_line = s.first_unknown_key_line;
          } in
          let same : new ≡ cfg = ground arith in
          subst IsParsed same (record {
            has_entry = bounds.0;
            entries_fit = bounds.1;
            default_in = resolve_default-bound text s.default entries index bounds.0 found;
            timeout_fits = timeout s.timeout g.1;
          })
    ]
  where
    timeout : (o : Option ℕ) → TimeoutFits o → IsTimeout (elim o [ none ↦ 0 | some t ↦ t ])
    timeout none h = inl (omega arith)
    timeout (some t) h = h

Keeps-IsGood : {s : CfgState} → Keeps (cfg_ok s) → IsGood s
Keeps-IsGood (kept g) = g

parse_text-IsParsed : (text : List ℕ) (cfg : BootCfg) → parse_text text ≡ cfg_ok cfg → IsParsed cfg
unfolding parse_text
parse_text-IsParsed text cfg e = elim (Option-cases (nul_line 1 text)) [
  | inr (line, nul) ↦ absurd (ground arith)
  | inl clean ↦ elim (CfgResult-cases (parse_lines text 0 1 (lines text) empty_state)) [
    | inl (line, reason, failed') ↦ absurd (ground arith)
    | inr (s, parsed) ↦
        let good = Keeps-IsGood (
          subst Keeps parsed
            (parse_lines-Keeps text 0 1 (lines text) empty_state (omega arith, tt))) in
        let done : finish text s ≡ cfg_ok cfg = ground arith in finish-IsParsed text s cfg good done
  ]
]

-- A file that bootCfgParse accepts has 1 to 9 entries, its default index is the index of one, and
-- its timeout is at most 3600 seconds or stands for no countdown.
pub parse-IsParsed : (text : List ℕ) (cfg : BootCfg) → parse text ≡ cfg_ok cfg → IsParsed cfg
unfolding parse
parse-IsParsed text cfg e = elim (Bool-cases (ltb file_max (length text))) [
  | inl long ↦ absurd (ground arith)
  | inr fits ↦ parse_text-IsParsed (skip_bom text) cfg (ground arith)
]
