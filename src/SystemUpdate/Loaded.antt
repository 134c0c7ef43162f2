-- ===== src/SystemUpdate/Loaded.antt =====
-- The components that `load_components` returns: each is as its entry in the manifest says, and fits
-- the flash, and no two have the same identifier.
use esp_iris.Common.{
  ℕ, ◌+◌, ◌%◌, ◌==◌, ◌≤◌, ◌<◌, not, ◌||◌, ◌≡◌, ◌≢◌, ◌⊎◌, sym, ap, subst, true, false, List, [], ◌∷◌,
  length, All, ok, raise_if, bind-ok, ok-injective, bytes_eq, bytes_eq_sound, arith,
}
use esp_iris.Session.Probes.{hex}
use esp_iris.SystemUpdate.Manifest.{
  Value, Items, no_entries, item, member, component_member, size_mismatch, digest_mismatch,
}
use esp_iris.SystemUpdate.Archive.{Entry, max_component_bytes, filenames_of, read_member}
use esp_iris.SystemUpdate.Bundle.{Component}
use esp_iris.SystemUpdate.Flashing.{IsWhole}
use esp_iris.SystemUpdate.Components.{
  carries_image, contains, Seen, Target, alignment, note, describe, check_image, load_component,
  load_components,
}
use esp_iris.SystemUpdate.Images.{IsImage, check_image_lem}
use esp_iris.SystemUpdate.Described.{Says, describe_lem}

same_size : (m n : ℕ) → raise_if (not (m == n)) size_mismatch ≡ ok tt → n ≡ m
same_size m n h = ground (arith, h)

same_digest :
    (a b : List ℕ) → raise_if (not (bytes_eq a b)) digest_mismatch ≡ ok tt → bytes_eq a b ≡ true
same_digest a b h = ground (arith, h)

contains_head : (x : ℕ) (ys : List ℕ) → contains x (x ∷ ys) ≡ true
unfolding contains
contains_head x ys = ground (arith)

contains_tail : (x y : ℕ) (ys : List ℕ) → contains x ys ≡ true → contains x (y ∷ ys) ≡ true
unfolding contains
contains_tail x y ys h = ground (arith, h)

-- A component fits into a flash: it is not empty, its sectors are within the flash, and aligned.
pub record IsPlaced (flash_size : ℕ) (c : Component) : Type 0 where
  pub is_whole : IsWhole c
  pub not_empty : 0 < c.size
  pub bounded : c.size ≤ max_component_bytes
  pub inside : c.target_offset + c.size ≤ flash_size
  pub aligned : c.target_offset % alignment c.kind ≡ 0

-- A component that is an application or a recovery carries an image for the chip.
abbrev pub HasImage : ℕ → Component → Type 0
HasImage chip_id c = (carries_image c.kind ≡ false) ⊎ IsImage chip_id c.bytes

-- No identifier occurs among those of a list, or twice in it.
abbrev pub IsFresh : ℕ → List Component → Type 0
IsFresh id components = All (λ c. c.id ≢ id) components

abbrev pub HasUniqueIds : List Component → Type 0
HasUniqueIds [] = Unit
HasUniqueIds (c ∷ components) = (c.id ≢ 0) × IsFresh c.id components × HasUniqueIds components

module _ (sha256 : List ℕ → List ℕ) where
  -- The entry of a manifest that declares a component; its digest is that of the bytes.
  abbrev pub Declares : Value → Component → Type 0
  Declares value c = Says value c.id c.target_offset c.size (hex (sha256 c.bytes)) c.filename

  abbrev pub DeclaresAll : Items → List Component → Type 0
  DeclaresAll no_entries [] = Unit
  DeclaresAll (item value values) (c ∷ components) =
      Declares value c × DeclaresAll values components
  DeclaresAll _ _ = ⊥

  -- What one turn of the loop makes sure of.
  pub record IsLoaded (target : Target) (seen : Seen) (value : Value) (c : Component) : Type 0 where
    pub declared : Declares value c
    pub placed : IsPlaced target.flash_size c
    pub image : HasImage target.chip_id c
    pub nonzero : c.id ≢ 0
    pub new : contains c.id seen.identifiers ≡ false

  pub load_component_lem :
      (target : Target) (entries : List Entry) (seen : Seen) (value : Value) (c : Component)
      → load_component sha256 target entries seen value ≡ ok c
      → IsLoaded target seen value c
  unfolding load_component
  load_component_lem target entries seen value c h =
      let (d, e1, h1) = bind-ok (describe target seen value) _ h in
      let (u2, e2, h2) =
        bind-ok
          (raise_if
            (member d.filename seen.filenames || not (member d.filename (filenames_of entries)))
            component_member)
          _ h1 in
      let (bytes, e3, h3) = bind-ok (read_member d.filename entries) _ h2 in
      let (u4, e4, h4) = bind-ok (raise_if (not (length bytes == d.size)) size_mismatch) _ h3 in
      let (u5, e5, h5) =
        bind-ok (raise_if (not (bytes_eq (hex (sha256 bytes)) d.sha256_text)) digest_mismatch) _
          h4 in
      let (u6, e6, h6) = bind-ok (check_image sha256 target.chip_id d.kind bytes) _ h5 in
      let (says, fits, nonzero, new) = describe_lem target seen value d e1 in
      let digest : d.sha256_text ≡ hex (sha256 bytes) = sym (
        bytes_eq_sound (hex (sha256 bytes)) d.sha256_text
          (same_digest (hex (sha256 bytes)) d.sha256_text e5)) in
      subst (IsLoaded target seen value) (ok-injective h6) (record {
        declared = subst (λ sha. Says value d.id d.target_offset d.size sha d.filename) digest says;
        placed = record {
          is_whole = same_size (length bytes) d.size e4;
          not_empty = fits.not_empty;
          bounded = fits.bounded;
          inside = fits.inside;
          aligned = fits.aligned;
        };
        image = check_image_lem sha256 target.chip_id d.kind bytes e6;
        nonzero = nonzero;
        new = new;
      })

  -- What the loop makes sure of; an identifier that is known before does not occur.
  abbrev pub AreLoaded : Target → Seen → Items → List Component → Type 0
  AreLoaded target seen values components =
      DeclaresAll values components
      × All (IsPlaced target.flash_size) components
      × All (HasImage target.chip_id) components
      × HasUniqueIds components
      × ((id : ℕ) → contains id seen.identifiers ≡ true → IsFresh id components)

  AreLoaded-cons :
      (target : Target) (seen : Seen) (value : Value) (values : Items) (c : Component)
      (components : List Component)
      → IsLoaded target seen value c
      → AreLoaded target (note c seen) values components
      → AreLoaded target seen (item value values) (c ∷ components)
  unfolding note
  AreLoaded-cons target seen value values c components loaded
        (declared, placed, images, unique, fresh) =
      (
        (loaded.declared, declared),
        (loaded.placed, placed),
        (loaded.image, images),
        (loaded.nonzero, fresh c.id (contains_head c.id seen.identifiers), unique),
        λ id known. (
          λ same. absurd (cc (loaded.new, known, ap (λ x. contains x seen.identifiers) same)),
          fresh id (contains_tail id c.id seen.identifiers known),
        ),
      )

  pub load_components_lem :
      (target : Target) (entries : List Entry) (seen : Seen) (values : Items)
      (components : List Component)
      → load_components sha256 target entries seen values ≡ ok components
      → AreLoaded target seen values components
  unfolding load_components
  load_components_lem target entries seen no_entries components h =
      subst (AreLoaded target seen no_entries) (ok-injective h) (tt, tt, tt, tt, λ id known. tt)
  load_components_lem target entries seen (item value values) components h =
      let (c, e1, h1) = bind-ok (load_component sha256 target entries seen value) _ h in
      let (rest, e2, h2) =
        bind-ok (load_components sha256 target entries (note c seen) values) _ h1 in
      subst (AreLoaded target seen (item value values)) (ok-injective h2) (
        AreLoaded-cons target seen value values c rest
          (load_component_lem target entries seen value c e1)
          (load_components_lem target entries (note c seen) values rest e2))
