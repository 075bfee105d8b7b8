-- ===== src/BootCfg/Resolve.antt =====
-- bootCfgResolveEntry: the values of one entry, its own before the global ones before the built-in.
-- A copied string is the list of its bytes before the NUL.
pub mod Bounds
use bongos.Common.{
  ℕ, zero, suc, ◌+◌, ◌-◌, Bool, true, false, not, Option, none, some, List, [], ◌∷◌, ltb, leb, ◌==◌,
  if◌then◌else◌, take, drop, get_elem?,
}
use bongos.Common.Bits.{test_bit}
use bongos.BootCfg.{skip_bom, path_max}
use bongos.BootCfg.Parse.{BootCfgSpan, BootCfgScope, BootCfgEntryDef, BootCfg}

abbrev pub name_size : ℕ
name_size = 64

-- BOOTINFO_CMDLINE_MAX
abbrev pub cmdline_max : ℕ
cmdline_max = 4096

pub record BootCfgEntry : Type 0 where
  pub name : List ℕ
  pub kernel : List ℕ
  pub initrd : List ℕ
  pub cmdline : List ℕ
  pub res_width : ℕ
  pub res_height : ℕ
  pub kaslr : Bool
  pub cmdline_truncated : Bool

-- "/bong/kernel.elf"
abbrev pub default_kernel : List ℕ
default_kernel =
    47 ∷ 98 ∷ 111 ∷ 110 ∷ 103 ∷ 47 ∷ 107 ∷ 101 ∷ 114 ∷ 110 ∷ 101 ∷ 108 ∷ 46 ∷ 101 ∷ 108 ∷ 102 ∷ []

-- The number of bytes that cfgCopySpan copies.
pub copy_len : BootCfgSpan → ℕ → ℕ
copy_len span cap' = if ltb (cap' - 1) span.len then cap' - 1 else span.len

pub copy_span : List ℕ → BootCfgSpan → ℕ → List ℕ
copy_span text span cap' = take (copy_len span cap') (drop span.off text)

-- The scope of the two that sets the key of this bit, the entry's own first.
pub scope_with : ℕ → BootCfgScope → BootCfgScope → Option BootCfgScope
scope_with bit own global =
    if test_bit own.set_mask bit
    then some own
    else if test_bit global.set_mask bit
    then some global
    else none

pub resolve_from : List ℕ → BootCfgEntryDef → BootCfgScope → BootCfgEntry
resolve_from text e global = record {
  name = if ltb 0 e.name.len then copy_span text e.name name_size else [];
  kernel = elim (scope_with 0 e.keys global) [
    | none ↦ default_kernel
    | some s ↦ copy_span text s.kernel path_max
  ];
  initrd = elim (scope_with 1 e.keys global) [
    | none ↦ []
    | some s ↦ copy_span text s.initrd path_max
  ];
  cmdline = elim (scope_with 2 e.keys global) [
    | none ↦ []
    | some s ↦ copy_span text s.cmdline cmdline_max
  ];
  res_width = elim (scope_with 3 e.keys global) [ none ↦ 0 | some s ↦ s.res_width ];
  res_height = elim (scope_with 3 e.keys global) [ none ↦ 0 | some s ↦ s.res_height ];
  kaslr = elim (scope_with 4 e.keys global) [ none ↦ true | some s ↦ not (s.kaslr == 0) ];
  cmdline_truncated = elim (scope_with 2 e.keys global) [
    | none ↦ false
    | some s ↦ ltb (copy_len s.cmdline cmdline_max) s.cmdline.len
  ];
}

-- `none` is BOOT_ERR_CFG.
pub resolve_entry : List ℕ → BootCfg → ℕ → Option BootCfgEntry
resolve_entry text cfg index = elim (get_elem? cfg.entries index) [
  | none ↦ none
  | some e ↦ some (resolve_from (skip_bom text) e cfg.global)
]
