-- ===== src/Unpack/Tests.antt =====
-- The extractor at concrete inputs.
use hull.Prelude.{
  ◌⊎◌, cut, Bytes, ℕ, ◌+◌, ◌-◌, ◌≤◌, ◌≡◌, refl, true, false, Option, none, some, List, [], ◌∷◌,
  if◌then◌else◌, ◌==◌, codes, same, split, has_prefix,
}
use hull.Text.Number.{unsigned, scan}
use hull.Unpack.User.{resolve_image_user, parse_uint32, find_line, file_lookup, resolved}
use hull.Unpack.Resolved.{IsId, resolve_image_user-IsId}
use hull.Unpack.Path.{
  join_fields, is_abs, walk, clean, dir, base, join, leaves_rootfs, refused, archive_name,
}
use hull.Unpack.Tar
use hull.Unpack.Tar.{
  Header, Item, entry, Op, read_names, mkdir_all, remove_all, Answer, Root, Failure, bad_name,
  Error,
}
use hull.Unpack.Extract.{whiteout, remove_for_replace, create_for_write, regular_file, write_body}
use hull.Unpack.Layer.{
  extract_entry, extract_all, set_mode, max_layer_bytes, max_layer_entries,
  extract_tar_ignore_chown,
}
use hull.Unpack.Contained.{AllContained}
use hull.Unpack.Confined.{extract_tar-AllContained}
use hull.Unpack.Counted.{written}
use hull.Unpack.Bounded.{over, extract_tar-bounded}
use hull.Unpack.Retry.{
  CappedReader, Fault, is_transient_transport_err, unpack_layer, retry_from, layer_attempts,
  unpack_layer_with_retry, read, bomb,
}
use hull.Unpack.Tries.{Decides, unpack_layer_with_retry-Decides}

cleans_dots : clean (codes "./a//b/../c/.") ≡ codes "a/c"
unfolding clean walk split same is_abs join_fields
cleans_dots = refl

keeps_front_dots : clean (codes "a/../../b") ≡ codes "../b"
unfolding clean walk split same is_abs join_fields
keeps_front_dots = refl

stops_at_root : clean (codes "/../a") ≡ codes "/a"
unfolding clean walk split same is_abs join_fields
stops_at_root = refl

parts :
    (dir (codes "a/b/c") ≡ codes "a/b")
    × (dir (codes "a") ≡ codes ".")
    × (base (codes "a/b/") ≡ codes "b")
unfolding dir base clean walk split same is_abs join_fields
parts = (refl, refl, refl)

refuses_dots : archive_name (codes "usr/../../etc") ≡ refused leaves_rootfs
unfolding archive_name clean walk split same is_abs join_fields has_prefix
refuses_dots = refl

-- A root that takes everything.
abbrev plain_root : Root
plain_root h op = record { error = none; mode = 0; is_symlink = false; data_read = []; names = [] }

abbrev folder : Header
folder = record {
  name = codes "etc/";
  linkname = [];
  kind = Tar.dir;
  mode = 493;
  uid = 0;
  gid = 0;
  body = [];
}

abbrev file : Header
file = record folder { name = codes "./etc/motd"; kind = Tar.reg; body = codes "hi" }

abbrev deletion : Header
deletion = record folder { name = codes "etc/.wh.shadow"; kind = Tar.reg }

abbrev escape : Header
escape = record file { name = codes "etc/../../motd" }

abbrev layer : List Item
layer = entry folder ∷ entry file ∷ entry deletion ∷ entry escape ∷ []

ends_at_escape :
    (extract_tar_ignore_chown plain_root none max_layer_bytes max_layer_entries layer).0
    ≡ some (bad_name (codes "etc/../../motd") leaves_rootfs)
unfolding extract_tar_ignore_chown extract_all extract_entry archive_name clean walk split same
    is_abs join_fields has_prefix dir base join whiteout regular_file remove_for_replace
    create_for_write write_body set_mode
ends_at_escape = refl

extract_tar-AllContained_example :
    AllContained
      (extract_tar_ignore_chown plain_root none max_layer_bytes max_layer_entries layer).1.history
extract_tar-AllContained_example =
    extract_tar-AllContained plain_root none max_layer_bytes max_layer_entries layer (λ h d. tt)

extract_tar-bounded_example :
    (written (extract_tar_ignore_chown plain_root none 1 3 layer).1.history
      ≤ 1 + over (extract_tar_ignore_chown plain_root none 1 3 layer).0)
    × ((extract_tar_ignore_chown plain_root none 1 3 layer).1.entries
        ≤ 3 + over (extract_tar_ignore_chown plain_root none 1 3 layer).0)
extract_tar-bounded_example = extract_tar-bounded plain_root none 1 3 layer

abbrev cut_off : Fault
cut_off = record {
  is_unexpected_eof = true;
  is_reset = false;
  is_broken_pipe = false;
  is_deadline = false;
  is_permission = false;
  message = codes "unexpected EOF";
}

abbrev third_time : ℕ → Option Fault
third_time attempt = if attempt == 3 then none else some cut_off

waits_twice : unpack_layer_with_retry third_time ≡ (none, 1000000000 ∷ 2000000000 ∷ [])
unfolding unpack_layer_with_retry retry_from is_transient_transport_err
waits_twice = refl

unpack_layer_with_retry-Decides_example :
    Decides third_time 1 (layer_attempts - 1) (unpack_layer_with_retry third_time)
unpack_layer_with_retry-Decides_example = unpack_layer_with_retry-Decides third_time

trips :
    read (record { limit = 16; count = 10; tripped = false }) 7 none
    ≡ (7, some bomb, record { limit = 16; count = 17; tripped = true })
unfolding read
trips = refl

abbrev held : CappedReader
held = record { limit = 16; count = 10; tripped = false }

abbrev refused_chown : Fault
refused_chown = record cut_off {
  is_unexpected_eof = false;
  is_permission = true;
  message = codes "operation not permitted";
}

is_done : unpack_layer none (λ _. (held, some refused_chown)) true none none ≡ none
unfolding unpack_layer
is_done = refl

abbrev passwd_file : Option Bytes
passwd_file = some (codes "root:x:0:0:root:/root:/bin/sh\nweb:x:33:34:web:/var/www:/bin/sh\n")

abbrev group_file : Option Bytes
group_file = some (codes "staff:x:50:web\n")

is_web :
    resolve_image_user passwd_file group_file (codes "web:staff")
    ≡ resolved (record { uid = 33; gid = 50; home = codes "/var/www" })
unfolding resolve_image_user parse_uint32 unsigned scan find_line file_lookup split cut same
is_web = refl

resolve_image_user-IsId_example :
    IsId passwd_file 7 (cut b':' (codes "web:staff")).before 33
    × (((cut b':' (codes "web:staff")).found ≡ false)
        ⊎ IsId group_file 4 (cut b':' (codes "web:staff")).after 50)
resolve_image_user-IsId_example =
    resolve_image_user-IsId passwd_file group_file (codes "web:staff")
      (record { uid = 33; gid = 50; home = codes "/var/www" }) is_web
