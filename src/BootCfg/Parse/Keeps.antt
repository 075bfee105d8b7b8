-- ===== src/BootCfg/Parse/Keeps.antt =====
-- Each line that bootCfgParse reads keeps the state within its bounds.
use bongos.Common.{
  ℕ, suc, ◌+◌, ◌≤◌, ◌≡◌, refl, Bool, true, false, not, ◌&&◌, ◌||◌, ◌⊎◌, inl, inr, Option, none,
  some, List, [], ◌∷◌, ltb, leb, if◌then◌else◌, length, arith, Bool-cases, Option-cases,
}
use bongos.Common.Bits.{test_bit}
use bongos.BootCfg.{
  Slice, trim, streq_bounded, is_digit, all, parse_uint, parse_resolution, drop_cr, split_eq,
  is_key_byte, is_name_byte,
}
use bongos.BootCfg.Parse.{
  BootCfgScope, BootCfgEntryDef, CfgResult, CfgReason, cfg_ok, cfg_err, CfgState, cur_scope,
  put_scope, in_global, max_entries, timeout_max, timeout_forever, set_kernel, set_initrd,
  set_cmdline, set_resolution, set_kaslr, set_timeout, set_default, count_unknown, set_key,
  has_entry, add_entry, before_bracket, parse_pair, parse_line, parse_lines,
}

abbrev pub IsTimeout : ℕ → Type 0
IsTimeout t = (t ≤ timeout_max) ⊎ (t ≡ timeout_forever)

abbrev pub TimeoutFits : Option ℕ → Type 0
TimeoutFits none = Unit {0}
TimeoutFits (some t) = IsTimeout t

abbrev pub IsGood : CfgState → Type 0
IsGood s = (length s.entries_back ≤ max_entries) × TimeoutFits s.timeout

-- An error, or a good state.
pub data Keeps : CfgResult CfgState → Type 0 where
  kept : {s : CfgState} → IsGood s → Keeps (cfg_ok s)
  failed : {line : ℕ} {reason : CfgReason} → Keeps (cfg_err line reason)

Keeps-if : (b : Bool) {x y : CfgResult CfgState} → Keeps x → Keeps y → Keeps (if b then x else y)
Keeps-if true kx ky = kx
Keeps-if false kx ky = ky

put_scope-IsGood : (scope : BootCfgScope) (s : CfgState) → IsGood s → IsGood (put_scope scope s)
unfolding put_scope
put_scope-IsGood scope s g = go s.entries_back g.0
  where
    go :
        (es : List BootCfgEntryDef)
        → length es ≤ max_entries
        → let s' = record s { entries_back = es } in IsGood (put_scope scope s')
    go [] h = (h, g.1)
    go (e ∷ es) h = (h, g.1)

module _ (line : ℕ) (v : Slice) (s : CfgState) (g : IsGood s) where
  set_kernel-Keeps : Keeps (set_kernel line v s)
  unfolding set_kernel
  set_kernel-Keeps = Keeps-if _ (kept g) (Keeps-if _ failed (kept (put_scope-IsGood _ s g)))

  set_initrd-Keeps : Keeps (set_initrd line v s)
  unfolding set_initrd
  set_initrd-Keeps = Keeps-if _ (kept g) (Keeps-if _ failed (kept (put_scope-IsGood _ s g)))

  set_cmdline-Keeps : Keeps (set_cmdline v s)
  unfolding set_cmdline
  set_cmdline-Keeps = Keeps-if _ (kept g) (kept (put_scope-IsGood _ s g))

  set_kaslr-Keeps : Keeps (set_kaslr line v s)
  unfolding set_kaslr
  set_kaslr-Keeps = Keeps-if (test_bit (cur_scope s).set_mask 4) (kept g) (
      Keeps-if (streq_bounded v.bytes (111 ∷ 110 ∷ [])) (kept (put_scope-IsGood _ s g)) (
        Keeps-if (streq_bounded v.bytes (111 ∷ 102 ∷ 102 ∷ [])) (kept (put_scope-IsGood _ s g))
          failed))

  set_resolution-Keeps : Keeps (set_resolution line v s)
  unfolding set_resolution
  set_resolution-Keeps = elim (Option-cases (parse_resolution v.bytes)) [
    | inl e ↦ rw (set_resolution, e) (Keeps-if _ (kept g) failed)
    | inr ((w, h), e) ↦ rw (set_resolution, e) (Keeps-if _ (kept g) (kept (put_scope-IsGood _ s g)))
  ]

  set_timeout-Keeps : Keeps (set_timeout line v s)
  unfolding set_timeout
  set_timeout-Keeps = elim (Option-cases s.timeout) [
    | inr (t, e) ↦ rw (set_timeout, e) (Keeps-if _ failed (kept g))
    | inl e ↦ elim (Option-cases (parse_uint v.bytes)) [
      | inl e' ↦
          rw (set_timeout, e, e') (Keeps-if _ failed (Keeps-if _ (kept (g.0, inr refl)) failed))
      | inr (t, e') ↦ elim (Bool-cases (ltb timeout_max t)) [
        | inl big ↦
            rw (set_timeout, e, e', big)
              (Keeps-if _ failed (Keeps-if _ (kept (g.0, inr refl)) failed))
        | inr fits ↦
            rw (set_timeout, e, e', fits)
              (Keeps-if _ failed
                (Keeps-if _ (kept (g.0, inr refl)) (kept (g.0, inl (ground arith)))))
      ]
    ]
  ]

  set_default-Keeps : Keeps (set_default line v s)
  unfolding set_default in_global
  set_default-Keeps =
      let digits = ltb 0 (length v.bytes) && all is_digit v.bytes in
      elim (Option-cases s.default) [
        | inr (d, e) ↦ rw (set_default, e) (Keeps-if _ failed (kept g))
        | inl e ↦ elim (Option-cases (parse_uint v.bytes)) [
          | inl e' ↦
              rw (set_default, e, e')
                (Keeps-if (not (in_global s)) failed (Keeps-if digits failed (kept g)))
          | inr (t, e') ↦
              rw (set_default, e, e')
                (Keeps-if (not (in_global s)) failed
                  (Keeps-if digits (Keeps-if (ltb t 1) failed (kept g)) (kept g)))
        ]
      ]

  set_key-Keeps : (key : List ℕ) → Keeps (set_key line key v s)
  unfolding set_key count_unknown
  set_key-Keeps key = Keeps-if _ set_kernel-Keeps (
      Keeps-if _ set_initrd-Keeps (
        Keeps-if _ set_cmdline-Keeps (
          Keeps-if _ set_resolution-Keeps (
            Keeps-if _ set_kaslr-Keeps
              (Keeps-if _ set_timeout-Keeps (Keeps-if _ set_default-Keeps (kept g)))))))

  add_entry-Keeps : (text : List ℕ) → Keeps (add_entry text line v s)
  unfolding add_entry
  add_entry-Keeps text =
      let bad_length = ltb (length v.bytes) 1 || ltb 63 (length v.bytes) in
      let bad_byte = not (all is_name_byte v.bytes) in
      let duplicate = has_entry text v.bytes s.entries_back in
      elim (Bool-cases (leb max_entries (length s.entries_back))) [
        | inl full ↦
            rw (add_entry, full)
              (Keeps-if bad_length failed
                (Keeps-if bad_byte failed (Keeps-if duplicate failed failed)))
        | inr room ↦
            let fits : suc (length s.entries_back) ≤ max_entries = ground (arith, g.0) in
            rw (add_entry, room)
              (Keeps-if bad_length failed
                (Keeps-if bad_byte failed (Keeps-if duplicate failed (kept (fits, g.1)))))
      ]

module _ (text : List ℕ) (line : ℕ) (l : Slice) (s : CfgState) (g : IsGood s) where
  parse_pair-Keeps : Keeps (parse_pair line l s)
  unfolding parse_pair
  parse_pair-Keeps = elim (Option-cases (split_eq l.off l.bytes)) [
    | inl e ↦ rw (parse_pair, e) failed
    | inr ((k, v), e) ↦
        let key = (trim (record { off = l.off; bytes = k })).bytes in
        rw (parse_pair, e)
          (Keeps-if (ltb (length key) 1 || ltb 31 (length key)) failed
            (Keeps-if (not (all is_key_byte key)) failed (set_key-Keeps line (trim v) s g key)))
  ]

  parse_line-Keeps : Keeps (parse_line text line l s)
  unfolding parse_line
  parse_line-Keeps = go l.bytes parse_pair-Keeps
    where
      go :
          (cs : List ℕ)
          → Keeps (parse_pair line (record { off = l.off; bytes = cs }) s)
          → Keeps (parse_line text line (record { off = l.off; bytes = cs }) s)
      go [] p = kept g
      go (c ∷ cs) p = elim (Option-cases (before_bracket cs)) [
        | inl e ↦ rw (parse_line, e) (Keeps-if _ (kept g) (Keeps-if _ failed p))
        | inr (inner, e) ↦
            rw (parse_line, e)
              (Keeps-if _ (kept g) (Keeps-if _ (add_entry-Keeps line _ s g text) p))
      ]

pub parse_lines-Keeps :
    (text : List ℕ) (off line : ℕ) (ls : List (List ℕ)) (s : CfgState)
    → IsGood s
    → Keeps (parse_lines text off line ls s)
unfolding parse_lines
parse_lines-Keeps text off line [] s g = kept g
parse_lines-Keeps text off line (l ∷ ls) s g =
    go (parse_line-Keeps text line (trim (record { off = off; bytes = drop_cr l })) s g)
      (λ s' g'. parse_lines-Keeps text (off + length l + 1) (line + 1) ls s' g')
  where
    go :
        {r : CfgResult CfgState}
        → Keeps r
        → ((s' : CfgState)
            → IsGood s'
            → Keeps (parse_lines text (off + length l + 1) (line + 1) ls s'))
        → Keeps (elim r [
          | cfg_err at reason ↦ cfg_err at reason
          | cfg_ok s' ↦ parse_lines text (off + length l + 1) (line + 1) ls s'
        ])
    go failed rest = failed
    go (kept {s = s'} g') rest = rest s' g'
