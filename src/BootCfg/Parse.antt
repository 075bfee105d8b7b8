-- ===== src/BootCfg/Parse.antt =====
-- bootCfgParse: one line at a time over a state of scopes and entries.
pub mod Keeps
pub mod Result
mod Tests
use bongos.Common.{
  ℕ, zero, suc, ◌+◌, ◌-◌, Bool, true, false, not, ◌&&◌, ◌||◌, Option, none, some, List, [], ◌∷◌,
  ◌++◌, ltb, leb, ◌==◌, if◌then◌else◌, length, take, drop, reverse_onto,
}
use bongos.Common.Bits.{test_bit, set_bit}
use bongos.BootCfg.{
  Slice, trim, streq_bounded, is_key_byte, is_name_byte, is_digit, all, valid_path_value,
  parse_uint, parse_resolution, lines, drop_cr, nul_line, skip_bom, split_eq,
}

pub record BootCfgSpan : Type 0 where
  pub off : ℕ
  pub len : ℕ

abbrev pub no_span : BootCfgSpan
no_span = record { off = 0; len = 0 }

pub record BootCfgScope : Type 0 where
  pub set_mask : ℕ
  pub kernel : BootCfgSpan
  pub initrd : BootCfgSpan
  pub cmdline : BootCfgSpan
  pub res_width : ℕ
  pub res_height : ℕ
  pub kaslr : ℕ

abbrev pub empty_scope : BootCfgScope
empty_scope = record {
  set_mask = 0;
  kernel = no_span;
  initrd = no_span;
  cmdline = no_span;
  res_width = 0;
  res_height = 0;
  kaslr = 0;
}

pub record BootCfgEntryDef : Type 0 where
  pub name : BootCfgSpan
  pub line : ℕ
  pub keys : BootCfgScope

-- The reasons of the source's messages.
pub data CfgReason : Type 0 where
  file_too_long nul_byte unterminated_header bad_name_length bad_name_byte duplicate_name :
      CfgReason
  too_many_entries no_value malformed_key bad_kernel bad_initrd bad_resolution bad_kaslr : CfgReason
  timeout_in_entry bad_timeout default_in_entry bad_default : CfgReason
  default_out_of_range default_not_found : CfgReason

pub data CfgResult {ℓ} (A : Type ℓ) : Type ℓ where
  cfg_ok : A → CfgResult A
  cfg_err : ℕ → CfgReason → CfgResult A

pub data CfgDefault : Type 0 where
  by_index : ℕ → CfgDefault
  by_name : BootCfgSpan → CfgDefault

-- The output so far and the locals of the loop. Where `entries` has an element, `curScope` points
-- to the keys of the last, and to `global` otherwise; so the last entry stands first here.
pub record CfgState : Type 0 where
  pub global : BootCfgScope
  pub entries_back : List BootCfgEntryDef
  pub timeout : Option ℕ
  pub default : Option (CfgDefault × ℕ)
  pub unknown_key_count : ℕ
  pub first_unknown_key_line : ℕ

pub cur_scope : CfgState → BootCfgScope
cur_scope s = elim s.entries_back [ [] ↦ s.global | e ∷ es ↦ e.keys ]

pub put_scope : BootCfgScope → CfgState → CfgState
put_scope scope s = elim s.entries_back [
  | [] ↦ record s { global = scope }
  | e ∷ es ↦ record s { entries_back = record e { keys = scope } ∷ es }
]

-- The scope is the global one.
pub in_global : CfgState → Bool
in_global s = elim s.entries_back [ [] ↦ true | e ∷ es ↦ false ]

abbrev span_of : Slice → BootCfgSpan
span_of v = record { off = v.off; len = length v.bytes }

abbrev pub max_entries : ℕ
max_entries = 9

abbrev pub timeout_max : ℕ
timeout_max = 3600

abbrev pub timeout_forever : ℕ
timeout_forever = 0xffffffff

abbrev forever : List ℕ
forever = 102 ∷ 111 ∷ 114 ∷ 101 ∷ 118 ∷ 101 ∷ 114 ∷ []

pub set_kernel : ℕ → Slice → CfgState → CfgResult CfgState
set_kernel line v s =
    let scope = cur_scope s in
    if test_bit scope.set_mask 0
    then cfg_ok s
    else if not (valid_path_value v.bytes)
    then cfg_err line bad_kernel
    else cfg_ok
        (put_scope (record scope { kernel = span_of v; set_mask = set_bit scope.set_mask 0 }) s)

pub set_initrd : ℕ → Slice → CfgState → CfgResult CfgState
set_initrd line v s =
    let scope = cur_scope s in
    if test_bit scope.set_mask 1
    then cfg_ok s
    else if ltb 0 (length v.bytes) && not (valid_path_value v.bytes)
    then cfg_err line bad_initrd
    else cfg_ok
        (put_scope (record scope { initrd = span_of v; set_mask = set_bit scope.set_mask 1 }) s)

pub set_cmdline : Slice → CfgState → CfgResult CfgState
set_cmdline v s =
    let scope = cur_scope s in
    if test_bit scope.set_mask 2
    then cfg_ok s
    else cfg_ok
        (put_scope (record scope { cmdline = span_of v; set_mask = set_bit scope.set_mask 2 }) s)

pub set_resolution : ℕ → Slice → CfgState → CfgResult CfgState
set_resolution line v s =
    let scope = cur_scope s in
    if test_bit scope.set_mask 3 then cfg_ok s else elim (parse_resolution v.bytes) [
      | none ↦ cfg_err line bad_resolution
      | some (w, h) ↦ cfg_ok (
          put_scope
            (record scope { res_width = w; res_height = h; set_mask = set_bit scope.set_mask 3 }) s)
    ]

abbrev put_kaslr : ℕ → CfgState → CfgState
put_kaslr on s =
    let scope = cur_scope s in
    put_scope (record scope { kaslr = on; set_mask = set_bit scope.set_mask 4 }) s

pub set_kaslr : ℕ → Slice → CfgState → CfgResult CfgState
set_kaslr line v s =
    if test_bit (cur_scope s).set_mask 4
    then cfg_ok s
    else if streq_bounded v.bytes (111 ∷ 110 ∷ [])
    then cfg_ok (put_kaslr 1 s)
    else if streq_bounded v.bytes (111 ∷ 102 ∷ 102 ∷ [])
    then cfg_ok (put_kaslr 0 s)
    else cfg_err line bad_kaslr

pub set_timeout : ℕ → Slice → CfgState → CfgResult CfgState
set_timeout line v s = if not (in_global s) then cfg_err line timeout_in_entry else elim s.timeout [
  | some seen ↦ cfg_ok s
  | none ↦
      if streq_bounded v.bytes forever
      then cfg_ok (record s { timeout = some timeout_forever })
      else elim (parse_uint v.bytes) [
        | none ↦ cfg_err line bad_timeout
        | some t ↦
            if ltb timeout_max t
            then cfg_err line bad_timeout
            else cfg_ok (record s { timeout = some t })
      ]
]

pub set_default : ℕ → Slice → CfgState → CfgResult CfgState
set_default line v s = if not (in_global s) then cfg_err line default_in_entry else elim s.default [
  | some seen ↦ cfg_ok s
  | none ↦
      if ltb 0 (length v.bytes) && all is_digit v.bytes
      then elim (parse_uint v.bytes) [
        | none ↦ cfg_err line bad_default
        | some idx ↦
            if ltb idx 1
            then cfg_err line bad_default
            else cfg_ok (record s { default = some (by_index idx, line) })
      ]
      else cfg_ok (record s { default = some (by_name (span_of v), line) })
]

pub count_unknown : ℕ → CfgState → CfgResult CfgState
count_unknown line s = cfg_ok (record s {
  unknown_key_count = s.unknown_key_count + 1;
  first_unknown_key_line = if s.first_unknown_key_line == 0 then line else s.first_unknown_key_line;
})

pub set_key : ℕ → List ℕ → Slice → CfgState → CfgResult CfgState
set_key line key v s =
    if streq_bounded key (107 ∷ 101 ∷ 114 ∷ 110 ∷ 101 ∷ 108 ∷ [])
    then set_kernel line v s
    else if streq_bounded key (105 ∷ 110 ∷ 105 ∷ 116 ∷ 114 ∷ 100 ∷ [])
    then set_initrd line v s
    else if streq_bounded key (99 ∷ 109 ∷ 100 ∷ 108 ∷ 105 ∷ 110 ∷ 101 ∷ [])
    then set_cmdline v s
    else if streq_bounded key (114 ∷ 101 ∷ 115 ∷ 111 ∷ 108 ∷ 117 ∷ 116 ∷ 105 ∷ 111 ∷ 110 ∷ [])
    then set_resolution line v s
    else if streq_bounded key (107 ∷ 97 ∷ 115 ∷ 108 ∷ 114 ∷ [])
    then set_kaslr line v s
    else if streq_bounded key (116 ∷ 105 ∷ 109 ∷ 101 ∷ 111 ∷ 117 ∷ 116 ∷ [])
    then set_timeout line v s
    else if streq_bounded key (100 ∷ 101 ∷ 102 ∷ 97 ∷ 117 ∷ 108 ∷ 116 ∷ [])
    then set_default line v s
    else count_unknown line s

abbrev pub bytes_at : List ℕ → BootCfgSpan → List ℕ
bytes_at text span = take span.len (drop span.off text)

-- The span holds just these bytes.
pub is_named : List ℕ → BootCfgSpan → List ℕ → Bool
is_named text span name = span.len == length name && streq_bounded (bytes_at text span) name

pub has_entry : List ℕ → List ℕ → List BootCfgEntryDef → Bool
has_entry text name [] = false
has_entry text name (e ∷ es) = is_named text e.name name || has_entry text name es

-- A section header whose inner slice, trimmed, is `inner`.
pub add_entry : List ℕ → ℕ → Slice → CfgState → CfgResult CfgState
add_entry text line inner s =
    if ltb (length inner.bytes) 1 || ltb 63 (length inner.bytes)
    then cfg_err line bad_name_length
    else if not (all is_name_byte inner.bytes)
    then cfg_err line bad_name_byte
    else if has_entry text inner.bytes s.entries_back
    then cfg_err line duplicate_name
    else if leb max_entries (length s.entries_back)
    then cfg_err line too_many_entries
    else cfg_ok (record s {
      entries_back =
          record { name = span_of inner; line = line; keys = empty_scope } ∷ s.entries_back;
    })

-- What stands before the last byte, where that is ']'.
pub before_bracket : List ℕ → Option (List ℕ)
before_bracket [] = none
before_bracket (c ∷ []) = if c == 93 then some [] else none
before_bracket (c ∷ d ∷ cs) = elim (before_bracket (d ∷ cs)) [
  | none ↦ none
  | some ds ↦ some (c ∷ ds)
]

pub parse_pair : ℕ → Slice → CfgState → CfgResult CfgState
parse_pair line l s = elim (split_eq l.off l.bytes) [
  | none ↦ cfg_err line no_value
  | some (k, v) ↦
      let key = (trim (record { off = l.off; bytes = k })).bytes in
      if ltb (length key) 1 || ltb 31 (length key)
      then cfg_err line malformed_key
      else if not (all is_key_byte key)
      then cfg_err line malformed_key
      else set_key line key (trim v) s
]

-- A trimmed line. The bracket of "[" is the last byte too, and it is not ']'.
pub parse_line : List ℕ → ℕ → Slice → CfgState → CfgResult CfgState
parse_line text line l s = elim l.bytes [
  | [] ↦ cfg_ok s
  | c ∷ cs ↦
      if c == 35
      then cfg_ok s
      else if c == 91
      then elim (before_bracket cs) [
        | none ↦ cfg_err line unterminated_header
        | some inner ↦ add_entry text line (trim (record { off = l.off + 1; bytes = inner })) s
      ]
      else parse_pair line l s
]

pub parse_lines : List ℕ → ℕ → ℕ → List (List ℕ) → CfgState → CfgResult CfgState
parse_lines text off line [] s = cfg_ok s
parse_lines text off line (l ∷ ls) s =
    elim (parse_line text line (trim (record { off = off; bytes = drop_cr l })) s) [
      | cfg_err at reason ↦ cfg_err at reason
      | cfg_ok s' ↦ parse_lines text (off + length l + 1) (line + 1) ls s'
    ]

pub record BootCfg : Type 0 where
  pub global : BootCfgScope
  pub entries : List BootCfgEntryDef
  pub timeout_sec : ℕ
  pub default_index : ℕ
  pub unknown_key_count : ℕ
  pub first_unknown_key_line : ℕ

abbrev pub empty_state : CfgState
empty_state = record {
  global = empty_scope;
  entries_back = [];
  timeout = none;
  default = none;
  unknown_key_count = 0;
  first_unknown_key_line = 0;
}

-- The entries in order; a file without a section has one implicit entry.
pub entries_of : List BootCfgEntryDef → List BootCfgEntryDef
entries_of [] = record { name = no_span; line = 0; keys = empty_scope } ∷ []
entries_of (e ∷ es) = reverse_onto (e ∷ es) []

pub find_name : List ℕ → List ℕ → ℕ → List BootCfgEntryDef → Option ℕ
find_name text name i [] = none
find_name text name i (e ∷ es) =
    let rest = find_name text name (i + 1) es in if is_named text e.name name then some i else rest

-- The index of the default entry.
pub resolve_default : List ℕ → Option (CfgDefault × ℕ) → List BootCfgEntryDef → CfgResult ℕ
resolve_default text none entries = cfg_ok 0
resolve_default text (some (by_index idx, line)) entries =
    if ltb idx 1 || ltb (length entries) idx
    then cfg_err line default_out_of_range
    else cfg_ok (idx - 1)
resolve_default text (some (by_name span, line)) entries =
    elim (find_name text (bytes_at text span) 0 entries) [
      | none ↦ cfg_err line default_not_found
      | some i ↦ cfg_ok i
    ]

pub finish : List ℕ → CfgState → CfgResult BootCfg
finish text s = elim (resolve_default text s.default (entries_of s.entries_back)) [
  | cfg_err line reason ↦ cfg_err line reason
  | cfg_ok index ↦ cfg_ok (record {
    global = s.global;
    entries = entries_of s.entries_back;
    timeout_sec = elim s.timeout [ none ↦ 0 | some t ↦ t ];
    default_index = index;
    unknown_key_count = s.unknown_key_count;
    first_unknown_key_line = s.first_unknown_key_line;
  })
]

abbrev pub file_max : ℕ
file_max = 65536

pub parse_text : List ℕ → CfgResult BootCfg
parse_text text = elim (nul_line 1 text) [
  | some line ↦ cfg_err line nul_byte
  | none ↦ elim (parse_lines text 0 1 (lines text) empty_state) [
    | cfg_err line reason ↦ cfg_err line reason
    | cfg_ok s ↦ finish text s
  ]
]

pub parse : List ℕ → CfgResult BootCfg
parse text =
    if ltb file_max (length text) then cfg_err 0 file_too_long else parse_text (skip_bom text)
