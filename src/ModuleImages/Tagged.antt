-- ===== src/ModuleImages/Tagged.antt =====
-- An image that is made available has the expected ID.
use vmdockerv.Base.{
  Bool, Bool-cases, Done, Message, Op, Result, Text, ap, arith, bind_inv, err, false,
  image_id_mismatch, inl, inr, ok, refl, require, subst, sym, true, ◌>>=◌, ◌∙◌, ◌≡◌,
}
use vmdockerv.Host.{Host}
use vmdockerv.ModuleImages.{
  ensure_image_tagged_by_id, image_matches_ref, inspect_args, inspect_local_image_id, is_true,
  tag_and_verify, tag_image, tag_unless_matched,
}

module _ (host : Host) (load_archive : Text → Text → Text → Op (host.World) Done)
    (reads_only : (cli_bin ref : Text) (w : host.World)
      → (host.run_command cli_bin (inspect_args ref) w).1 ≡ w) where
  open host use {World}

  -- The name's image has the ID.
  abbrev pub Names : Text → Text → Text → World → Type 0
  Names cli_bin name image_id w =
      (image_matches_ref host load_archive cli_bin name image_id w).0 ≡ ok true

  inspect_reads :
      (cli_bin ref : Text) (w : World)
      → (inspect_local_image_id host load_archive cli_bin ref w).1 ≡ w
  unfolding inspect_local_image_id
  inspect_reads cli_bin ref w = ground (arith, reads_only cli_bin ref w)

  match_reads :
      (cli_bin name image_id : Text) (w : World)
      → (image_matches_ref host load_archive cli_bin name image_id w).1 ≡ w
  unfolding image_matches_ref
  match_reads cli_bin name image_id w = ground (arith, inspect_reads cli_bin name w)

  is_true-ok : (r : Result Bool) → is_true r ≡ true → r ≡ ok true
  is_true-ok (ok true) h = refl
  is_true-ok (ok false) h = cc
  is_true-ok (err e) h = cc

  pub required :
      (b : Bool) (t : Message) (d : Done) (w : World) → (require b t w).0 ≡ ok d → b ≡ true
  required true t d w h = refl
  required false t d w h = cc

  tag_and_verify-ok :
      (cli_bin image_id name : Text) (d : Done) (w : World)
      → (tag_and_verify host load_archive cli_bin image_id name w).0 ≡ ok d
      → Names cli_bin name image_id (tag_and_verify host load_archive cli_bin image_id name w).1
  unfolding tag_and_verify
  tag_and_verify-ok cli_bin image_id name d w h =
      let u = (tag_image host load_archive cli_bin image_id name w).1 in
      let (x, tagged, r) =
        bind_inv (tag_image host load_archive cli_bin image_id name w)
          (λ x. image_matches_ref host load_archive cli_bin name image_id >>= λ matched.
            require matched image_id_mismatch)
          d h in
      let (matched, q, t) =
        bind_inv (image_matches_ref host load_archive cli_bin name image_id u)
          (λ matched. require matched image_id_mismatch) d r in
      let is_matched = required matched image_id_mismatch d _ t in
      let last : (tag_and_verify host load_archive cli_bin image_id name w).1 ≡ u =
        ground (arith, tagged, q, is_matched, match_reads cli_bin name image_id u) in
      subst (Names cli_bin name image_id) (sym last) (q ∙ ap ok is_matched)

  pub matched_already :
      (cli_bin image_id name : Text) (w : World)
      → is_true (image_matches_ref host load_archive cli_bin name image_id w).0 ≡ true
      → Names cli_bin name image_id (image_matches_ref host load_archive cli_bin name image_id w).1
  matched_already cli_bin image_id name w h =
      subst (Names cli_bin name image_id) (sym (match_reads cli_bin name image_id w))
        (is_true-ok (image_matches_ref host load_archive cli_bin name image_id w).0 h)

  tag_unless_matched-ok :
      (cli_bin image_id name : Text) (d : Done) (w : World)
      → (tag_unless_matched host load_archive cli_bin image_id name w).0 ≡ ok d
      → Names cli_bin name image_id (tag_unless_matched host load_archive cli_bin image_id name w).1
  tag_unless_matched-ok cli_bin image_id name d w h = elim (Bool-cases (is_true matched.0)) [
    | inl m ↦
        subst (λ r. Names cli_bin name image_id r.1) (sym (skips m))
          (matched_already cli_bin image_id name w m)
    | inr m ↦
        subst (λ r. Names cli_bin name image_id r.1) (sym (goes_on m))
          (tag_and_verify-ok cli_bin image_id name d matched.1
            (sym (ap (λ r. r.0) (goes_on m)) ∙ h))
  ]
    where
      matched : Result Bool × World
      matched = image_matches_ref host load_archive cli_bin name image_id w

      skips :
          is_true matched.0 ≡ true
          → tag_unless_matched host load_archive cli_bin image_id name w ≡ (ok tt, matched.1)
      skips m = unfold tag_unless_matched in ground (arith, m)

      goes_on :
          is_true matched.0 ≡ false
          → tag_unless_matched host load_archive cli_bin image_id name w
            ≡ tag_and_verify host load_archive cli_bin image_id name matched.1
      goes_on m = unfold tag_unless_matched in ground (arith, m)

  pub ensure_image_tagged_by_id-ok :
      (cli_bin image_id name : Text) (d : Done) (w : World)
      → (ensure_image_tagged_by_id host load_archive cli_bin image_id name w).0 ≡ ok d
      → Names cli_bin name image_id
          (ensure_image_tagged_by_id host load_archive cli_bin image_id name w).1
  unfolding ensure_image_tagged_by_id
  ensure_image_tagged_by_id-ok cli_bin image_id name d w h =
      let (x, inspected, r) =
        bind_inv (inspect_local_image_id host load_archive cli_bin image_id w)
          (λ x. tag_unless_matched host load_archive cli_bin image_id name) d h in
      let u = (inspect_local_image_id host load_archive cli_bin image_id w).1 in
      let last : (ensure_image_tagged_by_id host load_archive cli_bin image_id name w).1
          ≡ (tag_unless_matched host load_archive cli_bin image_id name u).1 =
        ground (arith, inspected) in
      subst (Names cli_bin name image_id) (sym last)
        (tag_unless_matched-ok cli_bin image_id name d u r)
