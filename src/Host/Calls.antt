-- ===== src/Host/Calls.antt =====
-- Classes of calls: those that format a device, that size a disk, that change the cluster's objects, that
-- take or give the lock, that write a file, that look at files.
use zerofs_csi_driver.Base.{◌≡◌, refl, Bool, true, false, not, ◌&&◌, Str, codes, ◌===◌}
use zerofs_csi_driver.Base.Text.{has_prefix}
use zerofs_csi_driver.Host.{Call}

-- `mkfs` and the programs `mkfs.*`
abbrev pub is_mkfs : Str → Bool
is_mkfs program = has_prefix program (codes "mkfs")

abbrev pub is_truncate : Str → Bool
is_truncate program = program === codes "truncate"

abbrev pub is_ordinary : Str → Bool
is_ordinary program = not (is_mkfs program) && not (is_truncate program)

-- A change of the cluster's objects.
abbrev pub is_change : Call → Bool
is_change (Call.create_secret x) = true
is_change (Call.update_secret x) = true
is_change (Call.delete_secret namespace name) = true
is_change (Call.create_pod x) = true
is_change (Call.delete_pod namespace name) = true
is_change (Call.force_delete_pod namespace name) = true
is_change _ = false

-- Neither a format, nor the sizing of a disk, nor a change of the cluster's objects, nor an operation on
-- the lock.
abbrev pub is_plain : Call → Bool
is_plain Call.lock = false
is_plain Call.unlock = false
is_plain (Call.exec program args) = is_ordinary program
is_plain (Call.create_secret x) = false
is_plain (Call.update_secret x) = false
is_plain (Call.delete_secret namespace name) = false
is_plain (Call.create_pod x) = false
is_plain (Call.delete_pod namespace name) = false
is_plain (Call.force_delete_pod namespace name) = false
is_plain _ = true

-- A plain call that writes and removes no file itself.
abbrev pub is_quiet : Call → Bool
is_quiet (Call.write_file p x) = false
is_quiet (Call.create_excl p) = false
is_quiet (Call.write_string p x) = false
is_quiet (Call.remove p) = false
is_quiet Call.lock = false
is_quiet Call.unlock = false
is_quiet (Call.exec program args) = is_ordinary program
is_quiet (Call.create_secret x) = false
is_quiet (Call.update_secret x) = false
is_quiet (Call.delete_secret namespace name) = false
is_quiet (Call.create_pod x) = false
is_quiet (Call.delete_pod namespace name) = false
is_quiet (Call.force_delete_pod namespace name) = false
is_quiet _ = true

-- The calls that look at files, make directories, or match names.
abbrev pub is_look : Call → Bool
is_look (Call.stat p) = true
is_look (Call.read_file p) = true
is_look (Call.mkdir_all p) = true
is_look (Call.glob p) = true
is_look _ = false

-- The calls on files.
abbrev pub is_file_call : Call → Bool
is_file_call (Call.write_file p x) = true
is_file_call (Call.create_excl p) = true
is_file_call (Call.write_string p x) = true
is_file_call (Call.remove p) = true
is_file_call c = is_look c

pub look-quiet : (c : Call) → is_look c ≡ true → is_quiet c ≡ true
look-quiet (Call.stat p) h = refl
look-quiet (Call.read_file p) h = refl
look-quiet (Call.mkdir_all p) h = refl
look-quiet (Call.glob p) h = refl
look-quiet _ h = absurd (cc)

pub look-file_call : (c : Call) → is_look c ≡ true → is_file_call c ≡ true
look-file_call (Call.stat p) h = refl
look-file_call (Call.read_file p) h = refl
look-file_call (Call.mkdir_all p) h = refl
look-file_call (Call.glob p) h = refl
look-file_call _ h = absurd (cc)

pub file_call-plain : (c : Call) → is_file_call c ≡ true → is_plain c ≡ true
file_call-plain (Call.write_file p x) h = refl
file_call-plain (Call.create_excl p) h = refl
file_call-plain (Call.write_string p x) h = refl
file_call-plain (Call.remove p) h = refl
file_call-plain (Call.stat p) h = refl
file_call-plain (Call.read_file p) h = refl
file_call-plain (Call.mkdir_all p) h = refl
file_call-plain (Call.glob p) h = refl
file_call-plain _ h = absurd (cc)
