-- ===== src/Server/Prerender/Freshness.antt =====
-- About what Server/Prerender serves: the contents of the assets.
use mathlib.Core.Path.{subst}
use nexide.Prelude.{
  ℕ, ◌≡◌, refl, sym, ap, ◌∙◌, Bool, true, ◌&&◌, [], ◌∷◌, Option, none, some, leb, length, ◌==◌,
  ==_iff, if◌then◌else◌, if-elim, Bool-cases, Option-cases, inl, inr, arith,
}
use nexide.Prelude.Options.{>>=-eq-some, if-eq-some, some-inj}
use nexide.Prelude.Text.{Text, text_eq, text_eq→eq}
use nexide.Cjs.Paths.{join}
use nexide.Server.Prerender.Keys.{lookup_key_kind}
use nexide.Server.Prerender.{
  Metadata, Disk, Crates, CachedAsset, Cache, cache_capacity, lookup_key, get_asset, without, store,
  same_time, file_matches, content_type, compute_etag, load_asset,
}

-- The disks of a history, of which any two that give a file the same size and the same modification
-- time give it the same content.
pub record AreStamped (P : Disk → Type 0) : Type 0 where
  pub same :
      (d d' : Disk)
      → P d
      → P d'
      → (path : Text) (m m' : Metadata) (t : ℕ) → d.metadata path ≡ some m
      → d'.metadata path ≡ some m'
      → m.modified ≡ some t
      → m'.modified ≡ some t
      → m.len ≡ m'.len
      → d.read path ≡ d'.read path

-- The asset of the file as it is on the disk.
pub record IsCurrent (crates : Crates) (disk : Disk) (root key : Text) (is_rsc : Bool)
    (asset : CachedAsset) : Type 0 where
  pub meta : Metadata
  pub found : disk.metadata (join root key) ≡ some meta
  pub content : disk.read (join root key) ≡ some asset.bytes
  pub size : meta.len ≡ asset.size
  pub mtime : meta.modified ≡ some asset.mtime
  pub etag : asset.etag ≡ compute_etag crates asset.bytes
  pub kind : asset.content_type ≡ content_type is_rsc

-- An entry of the cache: an asset as it was on some disk of the history, for a path with its key.
pub record IsEntry (P : Disk → Type 0) (crates : Crates) (root key : Text) (asset : CachedAsset)
    : Type 0 where
  pub disk : Disk
  pub known : P disk
  pub path : Text
  pub is_rsc : Bool
  pub names : lookup_key path is_rsc ≡ some key
  pub current : IsCurrent crates disk root key is_rsc asset

unfoldable pub AreEntries : (Disk → Type 0) → Crates → Text → Cache → Type 0
AreEntries P crates root [] = Unit
AreEntries P crates root (entry ∷ cache) =
    IsEntry P crates root entry.0 entry.1 × AreEntries P crates root cache

module _ (crates : Crates) (root : Text) where
  pub load_asset-IsCurrent :
      (disk : Disk) (key : Text) (r : Bool) (asset : CachedAsset)
      → load_asset crates disk root key r ≡ some asset
      → IsCurrent crates disk root key r asset
  unfolding load_asset
  load_asset-IsCurrent disk key r asset h =
      let (meta, e, h1) = >>=-eq-some (disk.metadata (join root key)) _ h in
      let (m, e1, h2) = >>=-eq-some (if meta.is_file then some meta else none) _ h1 in
      let (file, e2) = if-eq-some meta.is_file (some meta) e1 in
      let (bytes, e3, h3) = >>=-eq-some (disk.read (join root key)) _ h2 in
      let (mtime, e4, h4) = >>=-eq-some m.modified _ h3 in
      subst (IsCurrent crates disk root key r) (some-inj h4) (record {
        meta = meta;
        found = e;
        content = e3;
        size = ap (λ (x : Metadata). x.len) (some-inj e2);
        mtime = ap (λ (x : Metadata). x.modified) (some-inj e2) ∙ e4;
        etag = refl;
        kind = refl;
      })

  pub get_asset-IsEntry :
      (P : Disk → Type 0) (key : Text) (cache : Cache) (asset : CachedAsset)
      → AreEntries P crates root cache
      → get_asset key cache ≡ some asset
      → IsEntry P crates root key asset
  unfolding get_asset AreEntries
  get_asset-IsEntry P key [] asset all h = absurd (ground arith)
  get_asset-IsEntry P key (entry ∷ cache) asset all h = elim (Bool-cases (text_eq entry.0 key)) [
    | inl t ↦
        subst (λ k. IsEntry P crates root k asset) (text_eq→eq entry.0 key t)
          (subst (IsEntry P crates root entry.0) (some-inj (rw t at h)) all.0)
    | inr f ↦ get_asset-IsEntry P key cache asset all.1 (rw f at h)
  ]

  pub without-AreEntries :
      (P : Disk → Type 0) (key : Text) (cache : Cache)
      → AreEntries P crates root cache
      → AreEntries P crates root (without key cache)
  unfolding without AreEntries
  without-AreEntries P key [] all = tt
  without-AreEntries P key (entry ∷ cache) all =
      if-elim (AreEntries P crates root) (text_eq entry.0 key)
        (λ t. without-AreEntries P key cache all.1)
        (λ f. (all.0, without-AreEntries P key cache all.1))

  pub store-AreEntries :
      (P : Disk → Type 0) (key : Text) (asset : CachedAsset) (cache : Cache)
      → IsEntry P crates root key asset
      → AreEntries P crates root cache
      → AreEntries P crates root (store key asset cache)
  unfolding store AreEntries
  store-AreEntries P key asset cache entry all =
      if-elim
        (λ (kept : Cache).
          IsEntry P crates root key asset × AreEntries P crates root (without key kept))
        (leb cache_capacity (length cache)) (λ t. (entry, without-AreEntries P key [] tt))
        (λ f. (entry, without-AreEntries P key cache all))

  same_time-true : (o : Option ℕ) (t : ℕ) → same_time o t ≡ true → o ≡ some t
  unfolding same_time
  same_time-true none t h = absurd (ground arith)
  same_time-true (some m) t h = ap some ((==_iff m t).0 h)

  pub file_matches-IsMatch :
      (disk : Disk) (key : Text) (asset : CachedAsset)
      → file_matches disk root key asset ≡ true
      → (m : Metadata) × (disk.metadata (join root key) ≡ some m)
        × (m.len ≡ asset.size)
        × (m.modified ≡ some asset.mtime)
  unfolding file_matches
  file_matches-IsMatch disk key asset h = elim (Option-cases (disk.metadata (join root key))) [
    | inl e ↦ absurd (let bad = rw (file_matches, e) at h in ground arith)
    | inr (m, e) ↦
        let both : (m.len == asset.size) && same_time m.modified asset.mtime ≡ true =
          rw (file_matches, e) at h in
        (
          m,
          e,
          (==_iff m.len asset.size).0 (ground arith),
          same_time-true m.modified asset.mtime (ground arith),
        )
  ]

  -- An entry that matches the disk's file is current.
  pub matched-IsCurrent :
      (P : Disk → Type 0)
      → AreStamped P
      → (disk : Disk) (path key : Text) (r : Bool) (asset : CachedAsset) → P disk
      → lookup_key path r ≡ some key
      → IsEntry P crates root key asset
      → file_matches disk root key asset ≡ true
      → IsCurrent crates disk root key r asset
  matched-IsCurrent P laws disk path key r asset known names entry h =
      let (m, e, len, time) = file_matches-IsMatch disk key asset h in
      let then_ = entry.current in
      let kind = lookup_key_kind entry.path path key entry.is_rsc r entry.names names in
      record {
        meta = m;
        found = e;
        content =
            laws.same disk entry.disk known entry.known (join root key) m then_.meta asset.mtime e
              then_.found time then_.mtime (len ∙ sym then_.size)
            ∙ then_.content;
        size = len;
        mtime = time;
        etag = then_.etag;
        kind = then_.kind ∙ ap content_type kind;
      }
