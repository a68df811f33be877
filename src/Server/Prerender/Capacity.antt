-- ===== src/Server/Prerender/Capacity.antt =====
-- About the size of the cache of Server/Prerender.
use nexide.Prelude.{suc, ◌≤◌, List, [], ◌∷◌, Option, none, some, length, leb, if-elim, not, arith}
use nexide.Prelude.Text.{Text}
use nexide.Server.Prerender.{
  Disk, Crates, CachedAsset, Cache, cache_capacity, without, store, refreshed, resolve_asset,
  Request, Response, is_read, serve_key, try_serve, serve_all,
}

length-without : (key : Text) (cache : Cache) → length (without key cache) ≤ length cache
unfolding without
length-without key [] = omega arith
length-without key (entry ∷ cache) = ground (arith, length-without key cache)

length-store :
    (key : Text) (fresh : CachedAsset) (cache : Cache)
    → length cache ≤ cache_capacity
    → length (store key fresh cache) ≤ cache_capacity
unfolding store without
length-store key fresh cache h =
    let left = length-without key cache in
    if-elim (λ kept. suc (length (without key kept)) ≤ cache_capacity)
      (leb cache_capacity (length cache)) (λ t. omega arith) (λ f. ground arith)

module _ (crates : Crates) where
  length-refreshed :
      (key : Text) (cache : Cache) (loaded hit : Option CachedAsset)
      → length cache ≤ cache_capacity
      → length (refreshed crates key cache loaded hit).1 ≤ cache_capacity
  unfolding refreshed
  length-refreshed key cache loaded (some hit) h = h
  length-refreshed key cache none none h = h
  length-refreshed key cache (some fresh) none h = length-store key fresh cache h

  length-serve_key :
      (disk : Disk) (root : Text) (cache : Cache) (req : Request) (key : Option Text)
      → length cache ≤ cache_capacity
      → length (serve_key crates disk root cache req key).1 ≤ cache_capacity
  unfolding serve_key resolve_asset
  length-serve_key disk root cache req none h = h
  length-serve_key disk root cache req (some key) h = length-refreshed key cache _ _ h

  length-try_serve :
      (disk : Disk) (root : Text) (cache : Cache) (req : Request)
      → length cache ≤ cache_capacity
      → length (try_serve crates disk root cache req).1 ≤ cache_capacity
  unfolding try_serve
  length-try_serve disk root cache req h =
      if-elim (λ (out : Option Response × Cache). length out.1 ≤ cache_capacity)
        (not (is_read req.method)) (λ t. h) (λ f. length-serve_key disk root cache req _ h)

  -- However many requests are served, and however the files change, the cache never holds more than
  -- 4096 assets.
  pub length-serve_all :
      (root : Text) (cache : Cache) (events : List (Disk × Request))
      → length cache ≤ cache_capacity
      → length (serve_all crates root cache events) ≤ cache_capacity
  unfolding serve_all
  length-serve_all root cache [] h = h
  length-serve_all root cache (event ∷ events) h =
      length-serve_all root (try_serve crates event.0 root cache event.1).1 events
        (length-try_serve event.0 root cache event.1 h)
