-- ===== src/BootCfg.antt =====
-- boot/common/bootcfg.c: the bytes, lines, keys and sections of boot.cfg.
-- The text is the list of its bytes. A pair of pointers into it is a `Slice`: the offset of the
-- first byte, and the bytes. The 32-bit sums are written without their wrap: a file of at most
-- 65536 bytes and a number of at most six digits stay below it.
pub mod Numbers
pub mod Parse
pub mod Resolve
mod Tests
use bongos.Common.{
  ℕ, zero, suc, ◌+◌, ◌-◌, ◌*◌, Bool, true, false, not, ◌&&◌, ◌||◌, Option, none, some, List, [],
  ◌∷◌, ltb, leb, ◌==◌, if◌then◌else◌, length, take, drop,
}

pub record Slice : Type 0 where
  pub off : ℕ
  pub bytes : List ℕ

pub is_space : ℕ → Bool
is_space c = c == 32 || c == 9

-- The first loop of cfgTrim moves the start, the second the end.
pub trim_start : ℕ → List ℕ → Slice
trim_start off [] = record { off = off; bytes = [] }
trim_start off (c ∷ cs) =
    let rest = trim_start (off + 1) cs in
    if is_space c then rest else record { off = off; bytes = c ∷ cs }

pub trim_end : List ℕ → List ℕ
trim_end [] = []
trim_end (c ∷ cs) = elim (trim_end cs) [
  | [] ↦ if is_space c then [] else c ∷ []
  | d ∷ ds ↦ c ∷ d ∷ ds
]

pub trim : Slice → Slice
trim s = let t = trim_start s.off s.bytes in record { off = t.off; bytes = trim_end t.bytes }

pub streq_bounded : List ℕ → List ℕ → Bool
streq_bounded [] [] = true
streq_bounded [] (l ∷ ls) = false
streq_bounded (c ∷ cs) [] = false
streq_bounded (c ∷ cs) (l ∷ ls) = let rest = streq_bounded cs ls in if c == l then rest else false

pub is_key_byte : ℕ → Bool
is_key_byte c = leb 97 c && leb c 122 || leb 48 c && leb c 57 || c == 95 || c == 46

pub is_name_byte : ℕ → Bool
is_name_byte c = leb 0x20 c && leb c 0x7e && not (c == 91) && not (c == 93)

pub is_path_byte : ℕ → Bool
is_path_byte c = not (ltb c 0x21) && not (ltb 0x7e c)

pub is_digit : ℕ → Bool
is_digit c = not (ltb c 48) && not (ltb 57 c)

pub all : (ℕ → Bool) → List ℕ → Bool
all f [] = true
all f (c ∷ cs) = let rest = all f cs in if f c then rest else false

abbrev pub path_max : ℕ
path_max = 256

abbrev pub slash : ℕ
slash = 47

pub valid_path_value : List ℕ → Bool
valid_path_value [] = false
valid_path_value (c ∷ cs) =
    not (ltb (path_max - 1) (length (c ∷ cs))) && c == slash && all is_path_byte (c ∷ cs)

pub parse_digits : ℕ → List ℕ → Option ℕ
parse_digits v [] = some v
parse_digits v (c ∷ cs) =
    let rest = parse_digits (v * 10 + (c - 48)) cs in
    if not (is_digit c) then none else if ltb 99999 v then none else rest

pub parse_uint : List ℕ → Option ℕ
parse_uint [] = none
parse_uint (c ∷ cs) = parse_digits 0 (c ∷ cs)

-- The bytes before the first 'x' or 'X' and those after it.
pub split_x : List ℕ → Option (List ℕ × List ℕ)
split_x [] = none
split_x (c ∷ cs) =
    let rest = split_x cs in
    if c == 120 || c == 88
    then some ([], cs)
    else elim rest [ none ↦ none | some (w, h) ↦ some (c ∷ w, h) ]

abbrev pub dim_max : ℕ
dim_max = 16384

abbrev pub auto : List ℕ
auto = 97 ∷ 117 ∷ 116 ∷ 111 ∷ []

-- The width and the height that both lie within 1 and `dim_max`.
pub dimensions : Option ℕ → Option ℕ → Option (ℕ × ℕ)
dimensions (some w) (some h) =
    if ltb w 1 || ltb dim_max w || ltb h 1 || ltb dim_max h then none else some (w, h)
dimensions none h = none
dimensions (some w) none = none

-- An empty part is refused by parse_uint, where the source tests for it before.
pub parse_resolution : List ℕ → Option (ℕ × ℕ)
parse_resolution s =
    if streq_bounded s auto
    then some (0, 0)
    else elim (split_x s) [ none ↦ none | some (w, h) ↦ dimensions (parse_uint w) (parse_uint h) ]

-- The lines of the file, each without its newline.
pub lines : List ℕ → List (List ℕ)
lines [] = []
lines (c ∷ cs) =
    let rest = lines cs in
    if c == 10 then [] ∷ rest else elim rest [ [] ↦ (c ∷ []) ∷ [] | l ∷ ls ↦ (c ∷ l) ∷ ls ]

-- A carriage return at the end of a line.
pub drop_cr : List ℕ → List ℕ
drop_cr [] = []
drop_cr (c ∷ []) = if c == 13 then [] else c ∷ []
drop_cr (c ∷ d ∷ cs) = c ∷ drop_cr (d ∷ cs)

-- The line of the first NUL byte.
pub nul_line : ℕ → List ℕ → Option ℕ
nul_line line [] = none
nul_line line (c ∷ cs) =
    let rest = nul_line (if c == 10 then line + 1 else line) cs in
    if c == 0 then some line else rest

-- The text after the byte order mark EF BB BF.
pub skip_bom : List ℕ → List ℕ
skip_bom [] = []
skip_bom (a ∷ []) = a ∷ []
skip_bom (a ∷ b ∷ []) = a ∷ b ∷ []
skip_bom (a ∷ b ∷ c ∷ cs) = if a == 0xef && b == 0xbb && c == 0xbf then cs else a ∷ b ∷ c ∷ cs

-- The bytes before the first '=' and the slice after it; `off` is the offset of the first byte.
pub split_eq : ℕ → List ℕ → Option (List ℕ × Slice)
split_eq off [] = none
split_eq off (c ∷ cs) =
    let rest = split_eq (off + 1) cs in
    if c == 61
    then some ([], record { off = off + 1; bytes = cs })
    else elim rest [ none ↦ none | some (k, v) ↦ some (c ∷ k, v) ]
