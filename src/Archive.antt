-- ===== src/Archive.antt =====
-- vmdocker/utils/zip.go: a workspace as the text of an archive. The modes of files are left out.
pub mod Confined
mod Samples
use vmdockerv.Base.{
  Bool, Done, Error, List, Op, Result, Text, [], archive_path_escapes, codes, decode_archive_failed,
  err, has_prefix, if◌then◌else◌, invalid_archive_path, length, none, not, ok, pure, require, some,
  text_eq, throw, wrapping, ◌>>=◌, ◌>>◌, ◌||◌, ◌∷◌,
}
use vmdockerv.Disk.{Disk}
use vmdockerv.Docker.Consistency.{create}
use vmdockerv.Paths.{clean, dir, dot, dot_dot, is_abs, join_paths}
use vmdockerv.Paths.Relative.{or_failure, relative}
use vmdockerv.Vm.{close}

-- What `filepath.Walk` calls its function with: a path and what it found there.
pub record Visit (Info : Type 0) : Type 0 where
  pub path : Text
  pub found : Result Info

-- Writing an archive: archive/tar over compress/gzip. `add_name` sets the header's name.
pub record Writing (Info Header Writer : Type 0) : Type 0 where
  pub is_dir_info : Info → Bool
  pub file_info_header : Info → Result Header
  pub add_name : Text → Header → Header
  pub write_header : Header → Op Writer Done
  pub open_file : Text → Result Text
  pub copy_content : Text → Op Writer Done
  pub close_tar : Op Writer Done
  pub close_gzip : Op Writer Done
  pub encoded : Writer → Text

module _ {Info Header Writer : Type 0} (out : Writing Info Header Writer) where
  open out use {
    is_dir_info, file_info_header, add_name, write_header, open_file, copy_content, close_tar,
    close_gzip, encoded,
  }

  abbrev given : {A : Type 0} → Result A → Op Writer A
  given r s = (r, s)

  unfoldable pub add_entry : Text → Text → Info → Op Writer Done
  add_entry path rel_path item = do
    header ← given (file_info_header item)
    write_header (add_name rel_path header)
    if is_dir_info item then pure tt else (given (open_file path) >>= copy_content)

  -- The function that the walk calls.
  unfoldable pub visit_entry : Text → Visit Info → Op Writer Done
  unfolding relative add_entry
  visit_entry src_path v = do
    item ← given v.found
    rel_path ← given (or_failure (relative src_path v.path))
    if text_eq rel_path dot then pure tt else add_entry v.path rel_path item

  -- An error ends the walk.
  unfoldable pub walk_entries : Text → List (Visit Info) → Op Writer Done
  unfolding visit_entry
  walk_entries src_path [] = pure tt
  walk_entries src_path (v ∷ vs) = do visit_entry src_path v; walk_entries src_path vs

  -- The error of the walk is overwritten by those of the writers.
  unfoldable pub compress_directory : Text → List (Visit Info) → Op Writer Text
  unfolding walk_entries
  compress_directory src_path visits s =
      (do close_tar; close_gzip; (λ u. (ok (encoded u), u))) (walk_entries src_path visits s).1

pub data Kind : Type 0 where
  type_dir type_reg type_other : Kind

pub record TarEntry : Type 0 where
  pub name : Text
  pub kind : Kind
  pub content : Text

-- What `tr.Next` gives, one call after another.
pub data Tar : Type 0 where
  tar_end : Tar
  tar_broken : Error → Tar
  tar_entry : TarEntry → Tar → Tar

module _ {World : Type 0} (disk : Disk World) where
  open disk use {mkdir_all, create, copy, close}

  -- The path that an entry is written to.
  unfoldable pub entry_target : Text → Text → Op World Text
  unfolding relative
  entry_target dest_path name = do
    let header_name = clean name
    require
        (not (is_abs name || text_eq header_name dot_dot || has_prefix header_name (codes "../")))
        invalid_archive_path
    let target = join_paths (dest_path ∷ header_name ∷ [])
    rel ← wrapping invalid_archive_path (λ w. (or_failure (relative dest_path target), w))
    require (not (text_eq rel dot_dot || has_prefix rel (codes "../"))) archive_path_escapes
    pure target

  -- `io.Copy` and `Close`, which the error path of the copy calls too.
  unfoldable pub fill_file : Text → Text → Op World Done
  fill_file target content w =
      let ((n, failure), u) = copy target content (length content) w in
      let (closed, v) = close target u in elim failure [ some e ↦ (err e, v) | none ↦ (closed, v) ]

  unfoldable pub extract_file : Text → Text → Op World Done
  unfolding fill_file
  extract_file target content = do mkdir_all (dir target); create target; fill_file target content

  unfoldable pub extract_at : Text → TarEntry → Op World Done
  unfolding extract_file
  extract_at target e = elim e.kind [
    | type_dir ↦ mkdir_all target
    | type_reg ↦ extract_file target e.content
    | type_other ↦ pure tt
  ]

  unfoldable pub extract_entry : Text → TarEntry → Op World Done
  unfolding entry_target extract_at
  extract_entry dest_path e = do target ← entry_target dest_path e.name; extract_at target e

  unfoldable pub extract_entries : Text → Tar → Op World Done
  unfolding extract_entry
  extract_entries dest_path tar_end = pure tt
  extract_entries dest_path (tar_broken e) = throw e
  extract_entries dest_path (tar_entry e tar) = do
    extract_entry dest_path e
    extract_entries dest_path tar

  -- `decode` is base64 decoding, `read_tar` the readers of gzip and tar.
  unfoldable pub decompress_to_directory :
      (Text → Result Text) → (Text → Result Tar) → Text → Text → Op World Done
  unfolding extract_entries
  decompress_to_directory decode read_tar data_text dest_path = do
    decoded ← wrapping decode_archive_failed (λ w. (decode data_text, w))
    mkdir_all dest_path
    tar ← (λ w. (read_tar decoded, w))
    extract_entries (clean dest_path) tar
