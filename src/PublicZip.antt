-- ===== src/PublicZip.antt =====
-- vmdocker/capability/zip.go: a module's public.zip is unpacked into the workspace of a spawn. Texts
-- of files are lists of bytes.
pub mod Confined
pub mod Bounded
mod Samples
use vmdockerv.Base.{
  Bool, Done, List, Message, Op, Result, Text, [], codes, entry_escapes, entry_is_symlink, err,
  errorf, expanded_too_large, has_prefix, if◌then◌else◌, leb, length, member_corrupt, none, not, ok,
  pure, require, resolves_outside_workspace, some, text_eq, wrapping, zip_corrupt, zip_too_large, ℕ,
  ◌&&◌, ◌*◌, ◌++◌, ◌+◌, ◌-◌, ◌>>=◌, ◌>>◌, ◌^◌, ◌||◌, ◌∷◌,
}
use vmdockerv.Disk.{Disk}
use vmdockerv.Docker.Consistency.{create}
use vmdockerv.Paths.{clean, dir, dot, dot_dot, is_abs, join_paths}
use vmdockerv.Vm.{close}

-- A member of an archive: what its mode tells, and its content, unless it cannot be opened.
pub record ZipFile : Type 0 where
  pub name : Text
  pub is_dir : Bool
  pub is_symlink : Bool
  pub opened : Result Text

abbrev pub default_max_bytes : ℕ
default_max_bytes = 64 * 2 ^ 20

abbrev guard : {W : Type 0} → Bool → Message → Op W Done
guard b m = require (not b) m

module _ {World : Type 0} (disk : Disk World) where
  open disk use {mkdir_all, create, copy, close}

  -- What stands behind `os.Create`: the file is closed on every path, the error of the copy comes first.
  unfoldable pub copy_and_close : Text → Text → ℕ → Op World ℕ
  copy_and_close target source max w =
      let ((n, failure), u) = copy target source (max + 1) w in
      let (closed, v) = close target u in
      elim failure [
        | some e ↦ (err e, v)
        | none ↦ elim closed [
          | err e ↦ (err e, v)
          | ok d ↦ if leb n max then (ok n, v) else (err (errorf expanded_too_large), v)
        ]
      ]

  unfoldable pub write_public_file : Text → Text → ℕ → Op World ℕ
  unfolding copy_and_close
  write_public_file target source max = do create target; copy_and_close target source max

  abbrev pub open_member : Result Text → Op World Text
  open_member opened = wrapping member_corrupt (λ w. (opened, w))

  -- The checks of a member's name, and the path that it is written to.
  unfoldable pub member_target : Text → ZipFile → Op World Text
  member_target dst zf = do
    guard zf.is_symlink entry_is_symlink
    let rel = clean zf.name
    guard (is_abs zf.name || text_eq rel dot || text_eq rel dot_dot || has_prefix rel (codes "../"))
        entry_escapes
    let target = join_paths (dst ∷ rel ∷ [])
    guard (not (text_eq target dst) && not (has_prefix target (dst ++ codes "/")))
        resolves_outside_workspace
    pure target

  -- One round of the loop, with the number of bytes that remain.
  unfoldable pub unpack_member : Text → ZipFile → ℕ → Op World ℕ
  unfolding member_target write_public_file
  unpack_member dst zf remaining = do
    target ← member_target dst zf
    mkdir_all (dir target)
    source ← open_member zf.opened
    written ← write_public_file target source remaining
    pure (remaining - written)

  unfoldable pub unpack_members : Text → List ZipFile → ℕ → Op World Done
  unfolding unpack_member
  unpack_members dst [] remaining = pure tt
  unpack_members dst (zf ∷ zfs) remaining =
      if zf.is_dir
      then unpack_members dst zfs remaining
      else (unpack_member dst zf remaining >>= λ left. unpack_members dst zfs left)

  -- `read_zip` is `zip.NewReader`.
  unfoldable pub unpack_public_zip_max :
      (Text → Result (List ZipFile)) → Text → Text → ℕ → Op World Done
  unfolding unpack_members
  unpack_public_zip_max read_zip dst zip_bytes max = do
    guard (not (leb (length zip_bytes) max)) zip_too_large
    zfs ← wrapping zip_corrupt (λ w. (read_zip zip_bytes, w))
    unpack_members dst zfs max

  unfoldable pub unpack_public_zip : (Text → Result (List ZipFile)) → Text → Text → Op World Done
  unfolding unpack_public_zip_max
  unpack_public_zip read_zip dst zip_bytes =
      unpack_public_zip_max read_zip dst zip_bytes default_max_bytes
