-- ===== src/SystemUpdate/Accepted.antt =====
-- What holds of a bundle that `load_bundle` returns: the components and their places, and the trust
-- in the manifest that declares them.
use esp_iris.Common.{
  ℕ, ◌==◌, ltb, not, ◌||◌, ◌≡◌, refl, sym, ap, ◌∙◌, subst, Bool, true, false, List, [], ◌∷◌, ◌++◌,
  length, Option, none, some, All, ok, raise_if, raise_if-ok, bind-ok, or_raise, ok-injective,
  is_empty, arith,
}
use esp_iris.SystemUpdate.Manifest.{
  Value, array, object, Items, Fields, LoadError, text, get, member, strict, mapping, sha256_hex,
  overlap, no_manifest, manifest_size, signature_size, not_json, no_archive, undeclared_members,
  untrusted_key,
}
use esp_iris.SystemUpdate.Archive.{Entry, filenames_of, archive_members, read_member}
use esp_iris.SystemUpdate.Bundle.{Component, Bundle}
use esp_iris.SystemUpdate.Components.{Seen, load_components}
use esp_iris.SystemUpdate.Described.{mapping-ok}
use esp_iris.SystemUpdate.Loaded.{
  IsPlaced, HasImage, HasUniqueIds, DeclaresAll, load_components_lem,
}
use esp_iris.SystemUpdate.Layout.{regions_of, sort_regions, neighbours_overlap, check_layout}
use esp_iris.SystemUpdate.Regions.{AreApart, accepted-AreApart}
use esp_iris.SystemUpdate.Loading.{
  Source, read_source, manifest_name, reserved, component_files, has_unused, read_signature,
  check_header, key_of, read_target, component_values, trusted, check_signature, load_manifest,
  load_archive, load_bundle,
}

-- A bundle with its components where they belong, declared by its manifest.
pub record IsSound (sha256 : List ℕ → List ℕ) (bundle : Bundle) : Type 0 where
  pub values : Items
  pub in_manifest : get (text "components") bundle.manifest ≡ array values
  pub declared : DeclaresAll sha256 values bundle.components
  pub placed : All (IsPlaced bundle.flash_size) bundle.components
  pub images : All (HasImage bundle.chip_id) bundle.components
  pub unique : HasUniqueIds bundle.components
  pub apart : AreApart (regions_of bundle.components)

or_raise-ok :
    {A : Type 0} (found : Option A) (e : LoadError) (a : A)
    → or_raise found e ≡ ok a
    → found ≡ some a
or_raise-ok none e a h = absurd (cc)
or_raise-ok (some b) e a h = ap some (ok-injective h)

component_values-ok :
    (value : Value) (values : Items) → component_values value ≡ ok values → value ≡ array values
unfolding component_values
component_values-ok value values h = ground (arith, h)

check_layout-ok :
    (layout : List ℕ) (components : List Component)
    → check_layout layout components ≡ ok tt
    → neighbours_overlap (sort_regions (regions_of components)) ≡ false
unfolding check_layout
check_layout-ok layout components h =
    (raise_if-ok (neighbours_overlap (sort_regions (regions_of components))) overlap _ h).0

module _ (sha256 : List ℕ → List ℕ) where
  -- What a loaded bundle owes to its archive: the digest of the manifest, and the manifest itself.
  pub record IsRead (fields : Fields) (manifest_bytes signature : List ℕ) (bundle : Bundle)
      : Type 0 where
    pub same_manifest : bundle.manifest ≡ fields
    pub same_bytes : bundle.manifest_bytes ≡ manifest_bytes
    pub same_signature : bundle.signature ≡ signature
    pub same_digest : bundle.manifest_sha256 ≡ sha256 manifest_bytes
    pub same_verified : bundle.signature_verified ≡ not (is_empty signature)
    pub sound : IsSound sha256 bundle

  load_manifest_lem :
      (entries : List Entry) (manifest_bytes signature : List ℕ) (fields : Fields) (bundle : Bundle)
      → load_manifest sha256 entries manifest_bytes signature fields ≡ ok bundle
      → IsRead fields manifest_bytes signature bundle
  unfolding load_manifest
  load_manifest_lem entries manifest_bytes signature fields bundle h =
      let signed = not (is_empty signature) in
      let (u1, e1, h1) = bind-ok (check_header fields) _ h in
      let (key_id, e2, h2) = bind-ok (key_of signed (get (text "signature") fields)) _ h1 in
      let (target, e3, h3) = bind-ok (read_target (get (text "target") fields)) _ h2 in
      let (layout, e4, h4) = bind-ok (sha256_hex (get (text "target_layout_sha256") fields)) _ h3 in
      let (values, e5, h5) = bind-ok (component_values (get (text "components") fields)) _ h4 in
      let seen : Seen = record {
        identifiers = [];
        singleton_kinds = [];
        filenames = reserved signed;
      } in
      let (components, e6, h6) = bind-ok (load_components sha256 target entries seen values) _ h5 in
      let (u7, e7, h7) =
        bind-ok
          (raise_if
            (has_unused (reserved signed ++ component_files components) (filenames_of entries))
            undeclared_members)
          _ h6 in
      let (u8, e8, h8) = bind-ok (check_layout layout components) _ h7 in
      let (declared, placed, images, unique, fresh) =
        load_components_lem sha256 target entries seen values components e6 in
      subst (IsRead fields manifest_bytes signature) (ok-injective h8) (record {
        same_manifest = refl;
        same_bytes = refl;
        same_signature = refl;
        same_digest = refl;
        same_verified = refl;
        sound = record {
          values = values;
          in_manifest = component_values-ok (get (text "components") fields) values e5;
          declared = declared;
          placed = placed;
          images = images;
          unique = unique;
          apart =
              accepted-AreApart target.flash_size components placed
                (check_layout-ok layout components e8);
        };
      })

module _ {Key : Type 0} (verify : Key → List ℕ → List ℕ → Bool) where
  abbrev SignedBy : Option Key → List ℕ → List ℕ → Type 0
  SignedBy none signature manifest = signature ≡ []
  SignedBy (some key) signature manifest =
      (verify key signature manifest ≡ true) × (is_empty signature ≡ false)

  check_signature_lem :
      (key : Option Key) (signature manifest : List ℕ)
      → check_signature verify key signature manifest ≡ ok tt
      → SignedBy key signature manifest
  unfolding check_signature
  check_signature_lem none [] manifest h = refl
  check_signature_lem none (b ∷ signature) manifest h = absurd (cc)
  check_signature_lem (some key) [] manifest h = absurd (cc)
  check_signature_lem (some key) (b ∷ signature) manifest h = (ground (arith, h), refl)

module _ {Key : Type 0} (verify : Key → List ℕ → List ℕ → Bool) (parse : List ℕ → Option Value)
    (sha256 : List ℕ → List ℕ) where
  pub record FromArchive (key : Option Key) (bundle : Bundle) : Type 0 where
    pub parsed : parse bundle.manifest_bytes ≡ some (object bundle.manifest)
    pub digest : bundle.manifest_sha256 ≡ sha256 bundle.manifest_bytes
    pub signed : SignedBy verify key bundle.signature bundle.manifest_bytes
    pub verified : bundle.signature_verified ≡ not (is_empty bundle.signature)
    pub sound : IsSound sha256 bundle

  load_archive_lem :
      (key : Option Key) (entries : List Entry) (bundle : Bundle)
      → load_archive verify parse sha256 key entries ≡ ok bundle
      → FromArchive key bundle
  unfolding load_archive
  load_archive_lem key entries bundle h =
      let (u1, e1, h1) =
        bind-ok (raise_if (not (member manifest_name (filenames_of entries))) no_manifest) _ h in
      let (bytes, e2, h2) = bind-ok (read_member manifest_name entries) _ h1 in
      let (signature, e3, h3) = bind-ok (read_signature entries) _ h2 in
      let (u4, e4, h4) =
        bind-ok (raise_if (length bytes == 0 || ltb 2048 (length bytes)) manifest_size) _ h3 in
      let (u5, e5, h5) = bind-ok (raise_if (ltb 256 (length signature)) signature_size) _ h4 in
      let (u6, e6, h6) = bind-ok (check_signature verify key signature bytes) _ h5 in
      let (document, e7, h7) = bind-ok (or_raise (parse bytes) not_json) _ h6 in
      let (u8, e8, h8) = bind-ok (strict document) _ h7 in
      let (fields, e9, h9) = bind-ok (mapping document) _ h8 in
      let read = load_manifest_lem sha256 entries bytes signature fields bundle h9 in
      let signed = check_signature_lem verify key signature bytes e6 in
      record {
        parsed =
            ap parse read.same_bytes
            ∙ (or_raise-ok (parse bytes) not_json document e7
                ∙ ap some (mapping-ok document fields e9 ∙ ap object (sym read.same_manifest)));
        digest = read.same_digest ∙ ap sha256 (sym read.same_bytes);
        signed =
            subst (λ s. SignedBy verify key s bundle.manifest_bytes) (sym read.same_signature)
              (subst (SignedBy verify key signature) (sym read.same_bytes) signed);
        verified = read.same_verified ∙ ap (λ s. not (is_empty s)) (sym read.same_signature);
        sound = read.sound;
      }

module _ {Key : Type 0} (load_key : List ℕ → Option Key) (verify : Key → List ℕ → List ℕ → Bool)
    (open_archive : List ℕ → Option (List Entry)) (parse : List ℕ → Option Value)
    (sha256 : List ℕ → List ℕ) where
  -- Trust, with a key or without.
  abbrev pub IsTrusted : Option (List ℕ) → Bundle → Type 0
  IsTrusted none bundle = (bundle.signature ≡ []) × (bundle.signature_verified ≡ false)
  IsTrusted (some pem) bundle =
      (key : Key) × (load_key pem ≡ some key)
      × (verify key bundle.signature bundle.manifest_bytes ≡ true)
      × (bundle.signature_verified ≡ true)

  trusted_lem :
      (trusted_public_key : Option (List ℕ)) (key : Option Key) (bundle : Bundle)
      → trusted load_key trusted_public_key ≡ ok key
      → FromArchive verify parse sha256 key bundle
      → IsTrusted trusted_public_key bundle
  unfolding trusted
  trusted_lem none key bundle h archive =
      let unsigned : bundle.signature ≡ [] =
        subst (λ k. SignedBy verify k bundle.signature bundle.manifest_bytes) (sym (ok-injective h))
          archive.signed in
      (unsigned, archive.verified ∙ ap (λ s. not (is_empty s)) unsigned)
  trusted_lem (some pem) key bundle h archive =
      let (loaded, e1, h1) = bind-ok (or_raise (load_key pem) untrusted_key) _ h in
      let (checked, there) : SignedBy verify (some loaded) bundle.signature bundle.manifest_bytes =
        subst (λ k. SignedBy verify k bundle.signature bundle.manifest_bytes)
          (sym (ok-injective h1)) archive.signed in
      (
        loaded,
        or_raise-ok (load_key pem) untrusted_key loaded e1,
        checked,
        archive.verified ∙ ap not there,
      )

  -- A bundle that loads has parsed its manifest, and the digest of it. With a trust key, the key
  -- has verified the signature over the manifest; without one, there is no signature. The entries
  -- of the manifest declare the components one by one, with the sizes and digests of their bytes;
  -- the components have unique identifiers, are aligned and within the flash, and do not overlap;
  -- an application or a recovery carries an image for the chip of the bundle.
  pub load_bundle_lem :
      (trusted_public_key : Option (List ℕ)) (source : Source) (bundle : Bundle)
      → load_bundle load_key verify open_archive parse sha256 trusted_public_key source ≡ ok bundle
      → IsTrusted trusted_public_key bundle
        × (parse bundle.manifest_bytes ≡ some (object bundle.manifest))
        × (bundle.manifest_sha256 ≡ sha256 bundle.manifest_bytes)
        × IsSound sha256 bundle
  unfolding load_bundle
  load_bundle_lem trusted_public_key source bundle h =
      let (bytes, e1, h1) = bind-ok (read_source source) _ h in
      let (key, e2, h2) = bind-ok (trusted load_key trusted_public_key) _ h1 in
      let (infos, e3, h3) = bind-ok (or_raise (open_archive bytes) no_archive) _ h2 in
      let (entries, e4, h4) = bind-ok (archive_members infos) _ h3 in
      let archive = load_archive_lem verify parse sha256 key entries bundle h4 in
      (
        trusted_lem trusted_public_key key bundle e2 archive,
        archive.parsed,
        archive.digest,
        archive.sound,
      )
