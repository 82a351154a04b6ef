-- ===== src/PublicZip/Samples.antt =====
-- Unpacking public archives on a flat file system.
use vmdockerv.Base.{
  List, Result, Text, [], arith, codes, entry_escapes, err, errorf, expanded_too_large, false, inl,
  inr, join, length, none, ok, refl, some, split, suc, text_discrete, true, zero, ℕ, ◌<◌, ◌∷◌, ◌≡◌,
  ◌≤◌, ◌⊎◌,
}
use vmdockerv.Disk.Flat.{
  Flat, SameOutside, first, flat_confines, flat_disk, is_segment-workspace, workspace,
}
use vmdockerv.Paths.{clean, clean_segments, join_paths, pop_segment, push_segment}
use vmdockerv.Paths.Laws.{rooted}
use vmdockerv.PublicZip.{
  ZipFile, copy_and_close, member_target, unpack_member, unpack_members, unpack_public_zip_max,
  write_public_file,
}
use vmdockerv.PublicZip.Bounded.{CopiesAll, total_size, unpack_public_zip-ok}
use vmdockerv.PublicZip.Confined.{unpack_public_zip_confined}

length-first :
    (n : ℕ) (t : Text)
    → ((length t ≤ n) × (length (first n t) ≡ length t))
      ⊎ ((n < length t) × (length (first n t) ≡ n))
length-first zero [] = inl (omega arith, refl)
length-first zero (c ∷ t) = inr (omega arith, refl)
length-first (suc n) [] = inl (omega arith, refl)
length-first (suc n) (c ∷ t) = elim (length-first n t) [
  | inl (small, e) ↦ inl (omega arith, omega arith)
  | inr (big, e) ↦ inr (omega arith, omega arith)
]

flat_copies : CopiesAll flat_disk
flat_copies path source n m h = length-first n source

abbrev regular : Text → Text → ZipFile
regular name content = record {
  name = name;
  is_dir = false;
  is_symlink = false;
  opened = ok content;
}

abbrev skill : ZipFile
skill = regular (codes "skills/./go//test.md") (codes "run")

abbrev folder : ZipFile
folder = record { name = codes "skills/"; is_dir = true; is_symlink = false; opened = ok [] }

abbrev escaping : ZipFile
escaping = regular (codes "skills/../../etc/passwd") (codes "root")

abbrev two_members : List ZipFile
two_members = folder ∷ skill ∷ []

abbrev reads : List ZipFile → Text → Result (List ZipFile)
reads zfs zip_bytes = ok zfs

abbrev nothing : Flat
nothing q = none

unpacks :
    ((unpack_public_zip_max flat_disk
        (reads two_members)
        (rooted workspace)
        (codes "PK")
        3
        nothing).0
      ≡ ok tt)
    × ((unpack_public_zip_max flat_disk
            (reads two_members)
            (rooted workspace)
            (codes "PK")
            3
            nothing).1
          (codes "/w/skills/go/test.md")
        ≡ some (codes "run"))
unfolding unpack_public_zip_max unpack_members unpack_member member_target write_public_file
    copy_and_close clean clean_segments push_segment pop_segment split join join_paths text_discrete
unpacks = (refl, refl)

too_large :
    (unpack_public_zip_max flat_disk
      (reads two_members)
      (rooted workspace)
      (codes "PK")
      2
      nothing).0
    ≡ err (errorf expanded_too_large)
unfolding unpack_public_zip_max unpack_members unpack_member member_target write_public_file
    copy_and_close clean clean_segments push_segment pop_segment split join join_paths text_discrete
too_large = refl

escapes :
    (unpack_public_zip_max flat_disk
      (reads (escaping ∷ []))
      (rooted workspace)
      (codes "PK")
      9
      nothing).0
    ≡ err (errorf entry_escapes)
unfolding unpack_public_zip_max unpack_members unpack_member member_target write_public_file
    copy_and_close clean clean_segments push_segment pop_segment split join join_paths text_discrete
escapes = refl

unpack_public_zip_confined_example :
    SameOutside nothing
      (unpack_public_zip_max flat_disk
        (reads (skill ∷ escaping ∷ []))
        (rooted workspace)
        (codes "PK")
        9
        nothing).1
unpack_public_zip_confined_example =
    unpack_public_zip_confined flat_disk workspace (is_segment-workspace, tt) flat_confines
      (reads (skill ∷ escaping ∷ [])) (codes "PK") 9 nothing

unpack_public_zip-ok_example :
    (length (codes "PK") ≤ 3)
    × ((zfs : List ZipFile) × (reads two_members (codes "PK") ≡ ok zfs) × (total_size zfs ≤ 3))
unpack_public_zip-ok_example =
    unpack_public_zip-ok flat_disk flat_copies (reads two_members) (rooted workspace) (codes "PK") 3
      tt nothing unpacks.0
