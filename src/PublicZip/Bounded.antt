-- ===== src/PublicZip/Bounded.antt =====
-- What is unpacked is within the limit.
use vmdockerv.Base.{
  Bool-cases, Done, List, Op, Option-cases, Result, Result-cases, Text, [], arith, bind_inv, err,
  if◌then◌else◌, inl, inr, leb, length, none, ok, pure, ℕ, ◌+◌, ◌-◌, ◌<◌, ◌>>=◌, ◌>>◌, ◌∷◌, ◌≡◌,
  ◌≤◌, ◌⊎◌,
}
use vmdockerv.Disk.{Disk}
use vmdockerv.Paths.{dir}
use vmdockerv.PublicZip.{
  ZipFile, copy_and_close, member_target, open_member, unpack_member, unpack_members,
  unpack_public_zip_max, write_public_file,
}

-- `io.Copy` through `io.LimitReader` without an error writes all of the source that the limit lets by.
abbrev pub CopiesAll : {World : Type 0} → Disk World → Type 0
CopiesAll {World} disk =
    (target source : Text) (n : ℕ) (w : World)
    → (disk.copy target source n w).0.1 ≡ none
    → ((length source ≤ n) × ((disk.copy target source n w).0.0 ≡ length source))
      ⊎ ((n < length source) × ((disk.copy target source n w).0.0 ≡ n))

-- The bytes of the members that are files.
abbrev pub content_size : Result Text → ℕ
content_size (ok source) = length source
content_size (err e) = 0

pub total_size : List ZipFile → ℕ
total_size [] = 0
total_size (zf ∷ zfs) =
    if zf.is_dir then total_size zfs else content_size zf.opened + total_size zfs

module _ {World : Type 0} (disk : Disk World) (copies : CopiesAll disk) where
  copy_and_close-ok :
      (target source : Text) (max n : ℕ) (w : World)
      → (copy_and_close disk target source max w).0 ≡ ok n
      → (n ≡ length source) × (n ≤ max)
  unfolding copy_and_close
  copy_and_close-ok target source max n w h =
      elim (Option-cases (disk.copy target source (max + 1) w).0.1) [
        | inl e ↦ elim (copies target source (max + 1) w e) [
          | inl (small, all) ↦ grind (arith, e, all)
          | inr (big, cut) ↦ absurd (grind (arith, e, cut))
        ]
        | inr (f, e) ↦ absurd (ground (arith, e))
      ]

  write_public_file-ok :
      (target source : Text) (max n : ℕ) (w : World)
      → (write_public_file disk target source max w).0 ≡ ok n
      → (n ≡ length source) × (n ≤ max)
  unfolding write_public_file
  write_public_file-ok target source max n w h = elim (Result-cases (disk.create target w).0) [
    | inl (d, e) ↦
        copy_and_close-ok target source max n (disk.create target w).1 (ground (arith, e))
    | inr (f, e) ↦ absurd (ground (arith, e))
  ]

  -- The writing of one member, when its content is read.
  abbrev content_written : Text → Text → ℕ → Op World ℕ
  content_written target source remaining = do
    written ← write_public_file disk target source remaining
    pure (remaining - written)

  content_written-ok :
      (target source : Text) (remaining left : ℕ) (w : World)
      → (content_written target source remaining w).0 ≡ ok left
      → (length source ≤ remaining) × (left ≡ remaining - length source)
  content_written-ok target source remaining left w h =
      elim (Result-cases (write_public_file disk target source remaining w).0) [
        | inl (n, e) ↦
            let (whole, small) = write_public_file-ok target source remaining n w e in
            ground (arith, e, whole, small)
        | inr (f, e) ↦ absurd (ground (arith, e))
      ]

  abbrev member_written : Text → Text → Result Text → ℕ → Op World ℕ
  member_written parent target opened remaining = do
    disk.mkdir_all parent
    source ← open_member disk opened
    content_written target source remaining

  member_written-ok :
      (parent target : Text) (opened : Result Text) (remaining left : ℕ) (w : World)
      → (member_written parent target opened remaining w).0 ≡ ok left
      → (content_size opened ≤ remaining) × (left ≡ remaining - content_size opened)
  member_written-ok parent target (err e) remaining left w h =
      let (d, made, r) =
        bind_inv (disk.mkdir_all parent w)
          (λ d. open_member disk (err e) >>= λ source. content_written target source remaining) left
          h in
      cc
  member_written-ok parent target (ok source) remaining left w h =
      let (d, made, r) =
        bind_inv (disk.mkdir_all parent w) (λ d. content_written target source remaining) left h in
      content_written-ok target source remaining left (disk.mkdir_all parent w).1 r

  unpack_member-ok :
      (dst : Text) (zf : ZipFile) (remaining left : ℕ) (w : World)
      → (unpack_member disk dst zf remaining w).0 ≡ ok left
      → (content_size zf.opened ≤ remaining) × (left ≡ remaining - content_size zf.opened)
  unfolding unpack_member
  unpack_member-ok dst zf remaining left w h =
      let (target, checked, r) =
        bind_inv (member_target disk dst zf w)
          (λ target. member_written (dir target) target zf.opened remaining) left h in
      member_written-ok (dir target) target zf.opened remaining left (member_target disk dst zf w).1
        r

  unpack_members-ok :
      (dst : Text) (zfs : List ZipFile) (remaining : ℕ) (d : Done) (w : World)
      → (unpack_members disk dst zfs remaining w).0 ≡ ok d
      → total_size zfs ≤ remaining
  unfolding unpack_members total_size
  unpack_members-ok dst [] remaining d w h = omega arith
  unpack_members-ok dst (zf ∷ zfs) remaining d w h = elim (Bool-cases zf.is_dir) [
    | inl e ↦ ground (arith, e, unpack_members-ok dst zfs remaining d w (ground (arith, e)))
    | inr e ↦ elim (Result-cases (unpack_member disk dst zf remaining w).0) [
      | inl (left, q) ↦
          let (small, rest) = unpack_member-ok dst zf remaining left w q in
          let total =
            unpack_members-ok dst zfs left d (unpack_member disk dst zf remaining w).1
              (ground (arith, e, q)) in
          ground (arith, e, small, rest, total)
      | inr (f, q) ↦ absurd (ground (arith, e, q))
    ]
  ]

  -- Unpacking succeeds only when the archive is read, and neither its own length nor the size of all
  -- the files in it exceeds the limit, if the copies that report no error are complete.
  pub unpack_public_zip-ok :
      (read_zip : Text → Result (List ZipFile)) (dst zip_bytes : Text) (max : ℕ) (d : Done)
      (w : World)
      → (unpack_public_zip_max disk read_zip dst zip_bytes max w).0 ≡ ok d
      → (length zip_bytes ≤ max)
        × ((zfs : List ZipFile) × (read_zip zip_bytes ≡ ok zfs) × (total_size zfs ≤ max))
  unfolding unpack_public_zip_max
  unpack_public_zip-ok read_zip dst zip_bytes max d w h =
      elim (Bool-cases (leb (length zip_bytes) max)) [
        | inl b ↦ elim (Result-cases (read_zip zip_bytes)) [
          | inl (zfs, r) ↦ (
            ground (arith, b),
            (zfs, r, unpack_members-ok dst zfs max d w (ground (arith, b, r))),
          )
          | inr (f, r) ↦ absurd (ground (arith, b, r))
        ]
        | inr b ↦ absurd (ground (arith, b))
      ]
