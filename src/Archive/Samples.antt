-- ===== src/Archive/Samples.antt =====
-- The archive of a workspace at concrete trees.
use vmdockerv.Base.{
  Bool, List, Result, Text, [], codes, err, errorf, external, false, invalid_archive_path, join,
  none, ok, pure, refl, some, split, text_discrete, true, ◌++◌, ◌∷◌, ◌≡◌,
}
use vmdockerv.Archive.{
  Tar, TarEntry, Visit, Writing, add_entry, compress_directory, decompress_to_directory,
  entry_target, extract_at, extract_entries, extract_entry, extract_file, fill_file, tar_end,
  tar_entry, type_reg, visit_entry, walk_entries,
}
use vmdockerv.Archive.Confined.{decompress_to_directory_confined}
use vmdockerv.Disk.Flat.{
  Flat, SameOutside, flat_confines, flat_disk, is_segment-workspace, workspace,
}
use vmdockerv.Paths.{clean, clean_segments, join_paths, pop_segment, push_segment}
use vmdockerv.Paths.Laws.{rooted}
use vmdockerv.Paths.Relative.{named_segments, relative, strip_common}

-- A writer that lists the names of its entries; a directory's item is true.
abbrev listing : Writing Bool Text (List Text)
listing = record {
  is_dir_info = λ item. item;
  file_info_header = λ item. ok [];
  add_name = λ name header. name;
  write_header = λ header written. (ok tt, written ++ header ∷ []);
  open_file = λ path. ok (codes "content");
  copy_content = λ content. pure tt;
  close_tar = pure tt;
  close_gzip = pure tt;
  encoded = λ written. join written (codes ",");
}

abbrev at_path : Text → Result Bool → Visit Bool
at_path path found = record { path = path; found = found }

-- The walk stops at a directory that cannot be read, and no error is returned.
incomplete_archive :
    (compress_directory listing
      (codes "/w")
      (at_path (codes "/w") (ok true)
        ∷ at_path (codes "/w/a") (ok false)
        ∷ at_path (codes "/w/private") (err (external (codes "permission denied")))
        ∷ at_path (codes "/w/z") (ok false)
        ∷ [])
      []).0
    ≡ ok (codes "a")
unfolding compress_directory walk_entries visit_entry add_entry relative named_segments strip_common
    clean clean_segments push_segment pop_segment split join text_discrete
incomplete_archive = refl

abbrev file_entry : Text → Text → TarEntry
file_entry name content = record { name = name; kind = type_reg; content = content }

abbrev nothing : Flat
nothing q = none

abbrev two_entries : Tar
two_entries =
    tar_entry (file_entry (codes "a/b.md") (codes "b"))
      (tar_entry (file_entry (codes "a/../../etc") (codes "c")) tar_end)

stops_at_escape :
    ((decompress_to_directory flat_disk (λ t. ok t) (λ t. ok two_entries) [] (codes "/w") nothing).0
      ≡ err (errorf invalid_archive_path))
    × ((decompress_to_directory flat_disk
            (λ t. ok t)
            (λ t. ok two_entries)
            []
            (codes "/w")
            nothing).1
          (codes "/w/a/b.md")
        ≡ some (codes "b"))
unfolding decompress_to_directory extract_entries extract_entry entry_target extract_at extract_file
    fill_file relative named_segments strip_common clean clean_segments push_segment pop_segment
    split join join_paths text_discrete
stops_at_escape = (refl, refl)

decompress_to_directory_confined_example :
    SameOutside nothing
      (decompress_to_directory flat_disk
        (λ t. ok t)
        (λ t. ok two_entries)
        []
        (rooted workspace)
        nothing).1
decompress_to_directory_confined_example =
    decompress_to_directory_confined flat_disk workspace (is_segment-workspace, tt) flat_confines
      (λ w q h. refl) (λ t. ok t) (λ t. ok two_entries) [] nothing
