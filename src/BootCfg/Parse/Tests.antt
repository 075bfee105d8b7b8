-- ===== src/BootCfg/Parse/Tests.antt =====
-- A small boot.cfg.
use bongos.Common.{some, ℕ, ◌≡◌, refl, List, [], ◌∷◌}
use bongos.Common.Bits.{test_bit, set_bit}
use bongos.BootCfg.{
  is_space, trim_start, trim_end, trim, streq_bounded, is_key_byte, is_name_byte, is_path_byte,
  is_digit, all, valid_path_value, parse_digits, parse_uint, lines, drop_cr, nul_line, skip_bom,
  split_eq,
}
use bongos.BootCfg.Parse.{
  BootCfg, cfg_ok, empty_scope, cur_scope, put_scope, in_global, set_kernel, set_timeout, set_key,
  is_named, has_entry, add_entry, before_bracket, parse_pair, parse_line, parse_lines, entries_of,
  resolve_default, finish, parse_text, parse,
}
use bongos.BootCfg.Parse.Result.{IsParsed, parse-IsParsed}
use bongos.BootCfg.Resolve.{BootCfgEntry, resolve_entry}
use bongos.BootCfg.Resolve.Bounds.{FitsBuffers, resolve_entry-default}

-- "timeout = 7", "[a]", "kernel=/k", "[b]" and a carriage return.
abbrev file_small : List ℕ
file_small =
    116 ∷ 105 ∷ 109 ∷ 101 ∷ 111 ∷ 117 ∷ 116 ∷ 32 ∷ 61 ∷ 32 ∷ 55 ∷ 10 ∷ 91 ∷ 97 ∷ 93 ∷ 10 ∷ 107 ∷ 101
    ∷ 114 ∷ 110 ∷ 101 ∷ 108 ∷ 61 ∷ 47 ∷ 107 ∷ 10 ∷ 91 ∷ 98 ∷ 93 ∷ 13 ∷ []

abbrev cfg_small : BootCfg
cfg_small = record {
  global = empty_scope;
  entries =
      record {
        name = record { off = 13; len = 1 };
        line = 2;
        keys = record empty_scope { set_mask = 1; kernel = record { off = 23; len = 2 } };
      }
      ∷ record { name = record { off = 27; len = 1 }; line = 4; keys = empty_scope }
      ∷ [];
  timeout_sec = 7;
  default_index = 0;
  unknown_key_count = 0;
  first_unknown_key_line = 0;
}

parses_small : parse file_small ≡ cfg_ok cfg_small
unfolding parse parse_text finish resolve_default entries_of parse_lines parse_line parse_pair
    before_bracket add_entry has_entry is_named set_key set_kernel set_timeout in_global put_scope
    cur_scope split_eq skip_bom nul_line drop_cr lines parse_uint parse_digits valid_path_value all
    is_digit is_path_byte is_name_byte is_key_byte streq_bounded trim trim_end trim_start is_space
    test_bit set_bit
parses_small = refl

parse-IsParsed_example : IsParsed cfg_small
parse-IsParsed_example = parse-IsParsed file_small cfg_small parses_small

resolve_entry-default_example :
    (e : BootCfgEntry) × (resolve_entry file_small cfg_small 0 ≡ some e) × FitsBuffers e
resolve_entry-default_example = resolve_entry-default file_small cfg_small parses_small
