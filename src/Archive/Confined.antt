-- ===== src/Archive/Confined.antt =====
-- Extraction changes nothing outside of its destination.
use vmdockerv.Base.{
  List, Result, Text, [], ap, append-nil, arith, decode_archive_failed, err, false, length, ok,
  subst, sym, wrapping, ◌++◌, ◌>>=◌, ◌>>◌, ◌∙◌, ◌∷◌, ◌≡◌,
}
use vmdockerv.Archive.{
  Kind, Tar, TarEntry, decompress_to_directory, entry_target, extract_at, extract_entries,
  extract_entry, extract_file, fill_file, tar_broken, tar_end, tar_entry, type_dir, type_other,
  type_reg,
}
use vmdockerv.Disk.{Disk}
use vmdockerv.Disk.Confined.{Confines, Stays, continues, dir-inside}
use vmdockerv.Paths.{clean, dir, is_abs, join_paths}
use vmdockerv.Paths.Inside.{clean-inside, join_paths-inside, leads_up}
use vmdockerv.Paths.Laws.{AreSegments, rooted}
use vmdockerv.Paths.Rooted.{clean-rooted}

module _ {World : Type 0} (disk : Disk World) (ds : List Text) (is_dir : AreSegments ds)
    (c : Confines disk ds)
    (parent : (w : World) → c.Inside w (disk.mkdir_all (dir (rooted ds)) w).1) where
  fill-Stays :
      (segs : List Text) (content : Text)
      → AreSegments segs
      → Stays disk ds c (fill_file disk (rooted (ds ++ segs)) content)
  fill-Stays segs content are w = subst (c.Inside w) (sym closes) (
      c.inside_trans (c.copy_inside segs content (length content) w are)
        (c.close_inside segs _ are))
    where
      closes :
          (fill_file disk (rooted (ds ++ segs)) content w).1
          ≡ (disk.close
              (rooted (ds ++ segs))
              (disk.copy (rooted (ds ++ segs)) content (length content) w).1).1
      closes = unfold fill_file in ground arith

  mkdir_parent :
      (segs : List Text)
      → AreSegments segs
      → Stays disk ds c (disk.mkdir_all (dir (rooted (ds ++ segs))))
  mkdir_parent [] are w = rw (append-nil ds) (parent w)
  mkdir_parent (s ∷ segs) are w =
      let (more, are_more, e) = dir-inside ds s segs is_dir are in
      subst (λ p. c.Inside w (disk.mkdir_all p w).1) (sym e) (c.mkdir_inside more w are_more)

  extract_file-Stays :
      (segs : List Text) (content : Text)
      → AreSegments segs
      → Stays disk ds c (extract_file disk (rooted (ds ++ segs)) content)
  unfolding extract_file
  extract_file-Stays segs content are w =
      continues disk ds c
        (λ d.
          disk.create (rooted (ds ++ segs)) >>= λ e. fill_file disk (rooted (ds ++ segs)) content)
        w (disk.mkdir_all (dir (rooted (ds ++ segs))) w) (mkdir_parent segs are w)
        (λ d h u.
          continues disk ds c (λ e. fill_file disk (rooted (ds ++ segs)) content) u
            (disk.create (rooted (ds ++ segs)) u) (c.create_inside segs u are)
            (λ e k. fill-Stays segs content are))

  extract_at-Stays :
      (segs : List Text) (kind : Kind) (name content : Text)
      → AreSegments segs
      → Stays disk ds c (
          extract_at disk
            (rooted (ds ++ segs))
            (record { name = name; kind = kind; content = content }))
  unfolding extract_at
  extract_at-Stays segs type_dir name content are w = c.mkdir_inside segs w are
  extract_at-Stays segs type_reg name content are w = extract_file-Stays segs content are w
  extract_at-Stays segs type_other name content are w = c.inside_refl w

  entry_target_keeps : (name : Text) (w : World) → (entry_target disk (rooted ds) name w).1 ≡ w
  unfolding entry_target
  entry_target_keeps name w = ground arith

  checked :
      (name target : Text) (w : World)
      → (entry_target disk (rooted ds) name w).0 ≡ ok target
      → (is_abs name ≡ false)
        × (leads_up (clean name) ≡ false)
        × (target ≡ join_paths (rooted ds ∷ clean name ∷ []))
  unfolding entry_target
  checked name target w h = ground arith

  entry_inside :
      (name target : Text) (w : World)
      → (entry_target disk (rooted ds) name w).0 ≡ ok target
      → (segs : List Text) × AreSegments segs × (target ≡ rooted (ds ++ segs))
  entry_inside name target w h =
      let (absolute, below, joined) = checked name target w h in
      let (segs, are, e) = clean-inside name absolute below in
      (
        segs,
        are,
        joined ∙ ap (λ t. join_paths (rooted ds ∷ t ∷ [])) e ∙ join_paths-inside ds segs is_dir are,
      )

  extract_entry-Stays : (e : TarEntry) → Stays disk ds c (extract_entry disk (rooted ds) e)
  unfolding extract_entry
  extract_entry-Stays e w =
      continues disk ds c (λ target. extract_at disk target e) w
        (entry_target disk (rooted ds) e.name w)
        (subst (c.Inside w) (sym (entry_target_keeps e.name w)) (c.inside_refl w))
        (λ target h.
          let (segs, are, q) = entry_inside e.name target w h in
          subst (λ t. Stays disk ds c (extract_at disk t e)) (sym q)
            (extract_at-Stays segs e.kind e.name e.content are))

  extract_entries-Stays : (tar : Tar) → Stays disk ds c (extract_entries disk (rooted ds) tar)
  unfolding extract_entries
  extract_entries-Stays tar_end w = c.inside_refl w
  extract_entries-Stays (tar_broken e) w = c.inside_refl w
  extract_entries-Stays (tar_entry e tar) w =
      continues disk ds c (λ d. extract_entries disk (rooted ds) tar) w
        (extract_entry disk (rooted ds) e w) (extract_entry-Stays e w)
        (λ d h. extract_entries-Stays tar)

  read-Stays :
      (r : Result Tar)
      → Stays disk ds c (do tar ← (λ w. (r, w)); extract_entries disk (clean (rooted ds)) tar)
  read-Stays (ok tar) w =
      subst (λ p. c.Inside w (extract_entries disk p tar w).1) (sym (clean-rooted ds is_dir))
        (extract_entries-Stays tar w)
  read-Stays (err e) w = c.inside_refl w

  -- Whatever an archive holds, and however its extraction ends, only what lies in the destination
  -- changes, when that is an absolute clean path whose parent is there, and an operation on a path below
  -- it changes nothing else.
  pub decompress_to_directory_confined :
      (decode : Text → Result Text) (read_tar : Text → Result Tar) (data_text : Text) (w : World)
      → c.Inside w (decompress_to_directory disk decode read_tar data_text (rooted ds) w).1
  unfolding decompress_to_directory
  decompress_to_directory_confined decode read_tar data_text w = decoded-Stays (decode data_text) w
    where
      decoded-Stays :
          (r : Result Text)
          → Stays disk ds c (do
            decoded ← wrapping decode_archive_failed (λ u. (r, u))
            disk.mkdir_all (rooted ds)
            tar ← (λ u. (read_tar decoded, u))
            extract_entries disk (clean (rooted ds)) tar)
      decoded-Stays (ok decoded) u =
          continues disk ds c
            (λ d. do
              tar ← (λ v. (read_tar decoded, v))
              extract_entries disk (clean (rooted ds)) tar)
            u (disk.mkdir_all (rooted ds) u)
            (subst (λ l. c.Inside u (disk.mkdir_all (rooted l) u).1) (append-nil ds)
              (c.mkdir_inside [] u tt))
            (λ d h. read-Stays (read_tar decoded))
      decoded-Stays (err e) u = c.inside_refl u
