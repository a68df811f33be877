-- ===== src/Server/Prerender/Responses.antt =====
-- About the responses of Server/Prerender after any history of requests.
use mathlib.Core.Path.{subst}
use nexide.Prelude.{
  ◌≡◌, refl, sym, Bool, true, not, List, [], ◌∷◌, Option, none, some, if-elim, Option-cases, inl,
  inr, arith,
}
use nexide.Prelude.Options.{>>=-eq-some, if-eq-some, map_some-eq-some, some-inj}
use nexide.Prelude.Text.{Text}
use nexide.Server.Prerender.Freshness.{
  AreStamped, IsCurrent, IsEntry, AreEntries, load_asset-IsCurrent, get_asset-IsEntry,
  store-AreEntries, matched-IsCurrent,
}
use nexide.Server.Prerender.{
  Disk, Crates, CachedAsset, Cache, lookup_key, get_asset, file_matches, load_asset, cached,
  refreshed, resolve_asset, Request, Response, is_rsc_request, build_response, is_head, is_read,
  serve_key, try_serve, serve_all,
}

-- The disk of every request is known.
unfoldable pub AllKnown : (Disk → Type 0) → List (Disk × Request) → Type 0
AllKnown P [] = Unit
AllKnown P (event ∷ events) = P event.0 × AllKnown P events

-- A response that is made of the asset of the file as it is on the disk.
pub record IsFresh (crates : Crates) (disk : Disk) (root : Text) (req : Request) (res : Response)
    : Type 0 where
  pub key : Text
  pub names : lookup_key req.path (is_rsc_request req) ≡ some key
  pub read : is_read req.method ≡ true
  pub asset : CachedAsset
  pub current : IsCurrent crates disk root key (is_rsc_request req) asset
  pub built : res ≡ build_response asset (is_head req.method)

module _ (crates : Crates) (root : Text) (P : Disk → Type 0) (laws : AreStamped P) where
  Served : Disk → Text → Bool → Option CachedAsset → Type 0
  Served disk key r none = Unit
  Served disk key r (some asset) = IsCurrent crates disk root key r asset

  cached-IsEntry :
      (disk : Disk) (key : Text) (cache : Cache) (asset : CachedAsset)
      → AreEntries P crates root cache
      → cached crates disk root key cache ≡ some asset
      → IsEntry P crates root key asset × (file_matches disk root key asset ≡ true)
  unfolding cached
  cached-IsEntry disk key cache asset all h =
      let (hit, e, h1) = >>=-eq-some (get_asset key cache) _ h in
      let (matches, same) = if-eq-some (file_matches disk root key hit) (some hit) h1 in
      subst (λ a. IsEntry P crates root key a × (file_matches disk root key a ≡ true))
        (some-inj same) (get_asset-IsEntry crates root P key cache hit all e, matches)

  some-Served :
      (disk : Disk) (key : Text) (r : Bool) (o : Option CachedAsset)
      → ((asset : CachedAsset) → o ≡ some asset → IsCurrent crates disk root key r asset)
      → Served disk key r o
  unfolding Served
  some-Served disk key r none f = tt
  some-Served disk key r (some asset) f = f asset refl

  -- The asset and the cache after a lookup.
  Looked : Disk → Text → Bool → Option CachedAsset × Cache → Type 0
  unfolding Served
  Looked disk key r out = Served disk key r out.0 × AreEntries P crates root out.1

  refreshed-Looked :
      (disk : Disk) (path key : Text) (r : Bool) (cache : Cache) (loaded hit : Option CachedAsset)
      → P disk
      → lookup_key path r ≡ some key
      → AreEntries P crates root cache
      → Served disk key r loaded
      → Served disk key r hit
      → Looked disk key r (refreshed crates key cache loaded hit)
  unfolding refreshed Looked
  refreshed-Looked disk path key r cache loaded (some hit) known names all l h = (h, all)
  refreshed-Looked disk path key r cache none none known names all l h = (tt, all)
  refreshed-Looked disk path key r cache (some fresh) none known names all l h = (
    l,
    store-AreEntries crates root P key fresh cache
        (record { disk = disk; known = known; path = path; is_rsc = r; names = names; current = l })
        all,
  )

  resolve_asset-Looked :
      (disk : Disk) (path key : Text) (r : Bool) (cache : Cache)
      → P disk
      → lookup_key path r ≡ some key
      → AreEntries P crates root cache
      → Looked disk key r (resolve_asset crates disk root key r cache)
  unfolding resolve_asset
  resolve_asset-Looked disk path key r cache known names all =
      refreshed-Looked disk path key r cache _ _ known names all
        (some-Served disk key r (load_asset crates disk root key r)
          (load_asset-IsCurrent crates root disk key r))
        (some-Served disk key r (cached crates disk root key cache) (λ asset e.
          let (entry, matches) = cached-IsEntry disk key cache asset all e in
          matched-IsCurrent crates root P laws disk path key r asset known names entry matches))

  key_IsFresh :
      (disk : Disk) (req : Request) (res : Response) (key : Text) (cache : Cache)
      → lookup_key req.path (is_rsc_request req) ≡ some key
      → P disk
      → AreEntries P crates root cache
      → is_read req.method ≡ true
      → (serve_key crates disk root cache req (some key)).0 ≡ some res
      → IsFresh crates disk root req res
  unfolding serve_key Looked Served
  key_IsFresh disk req res key cache names known all read h =
      let r = is_rsc_request req in
      let found = resolve_asset crates disk root key r cache in
      let (asset, e, same) =
        map_some-eq-some (λ asset. build_response asset (is_head req.method)) found.0 h in
      let looked = resolve_asset-Looked disk req.path key r cache known names all in
      record {
        key = key;
        names = names;
        read = read;
        asset = asset;
        current = subst (Served disk key r) e looked.0;
        built = sym same;
      }

  try_serve-AreEntries :
      (disk : Disk) (cache : Cache) (req : Request)
      → P disk
      → AreEntries P crates root cache
      → AreEntries P crates root (try_serve crates disk root cache req).1
  unfolding try_serve serve_key Looked
  try_serve-AreEntries disk cache req known all =
      if-elim (λ (out : Option Response × Cache). AreEntries P crates root out.1)
        (not (is_read req.method)) (λ t. all)
        (λ f. elim (Option-cases (lookup_key req.path (is_rsc_request req))) [
          | inl e ↦ rw e all
          | inr (key, e) ↦
              rw e (resolve_asset-Looked disk req.path key (is_rsc_request req) cache known e all).1
        ])

  serve_all-AreEntries :
      (cache : Cache) (events : List (Disk × Request))
      → AllKnown P events
      → AreEntries P crates root cache
      → AreEntries P crates root (serve_all crates root cache events)
  unfolding serve_all AllKnown
  serve_all-AreEntries cache [] known all = all
  serve_all-AreEntries cache (event ∷ events) known all =
      serve_all-AreEntries (try_serve crates event.0 root cache event.1).1 events known.1
        (try_serve-AreEntries event.0 cache event.1 known.0 all)

  -- If any two disks of a history that give a file the same size and modification time give it the
  -- same content: after any requests, starting with an empty cache, a response served from the
  -- prerendered files is that of a GET or HEAD request, made of the asset that the file has on the
  -- disk now, with its bytes, size and entity tag and the content type of the request's kind.
  pub try_serve-IsFresh :
      (events : List (Disk × Request)) (disk : Disk) (req : Request) (res : Response)
      → AllKnown P events
      → P disk
      → (try_serve crates disk root (serve_all crates root [] events) req).0 ≡ some res
      → IsFresh crates disk root req res
  unfolding try_serve AreEntries serve_key Looked
  try_serve-IsFresh events disk req res past known h =
      let cache = serve_all crates root [] events in
      let all = serve_all-AreEntries [] events past tt in
      if-elim
        (λ (out : Option Response × Cache). out.0 ≡ some res → IsFresh crates disk root req res)
        (not (is_read req.method)) (λ t e. absurd (ground arith))
        (λ f. elim (Option-cases (lookup_key req.path (is_rsc_request req))) [
          | inl e ↦ rw e (λ bad. absurd (ground arith))
          | inr (key, e) ↦
              rw e (λ served. key_IsFresh disk req res key cache e known all (ground arith) served)
        ])
        h
