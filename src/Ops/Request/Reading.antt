-- ===== src/Ops/Request/Reading.antt =====
-- Reading the body through `read_body`, buffer by buffer.
use nexide.Prelude.{
  ℕ, zero, suc, ◌+◌, ◌-◌, ◌≤◌, ◌≡◌, refl, sym, ap, ◌∙◌, false, List, [], ◌∷◌, ◌++◌, Option, some,
  arith, min, length, take, drop, length-append, length-take, length-drop, ltb,
}
use native.Mathlib.Nat.{zero-add, suc-add}
use nexide.Prelude.Options.{◌>>=◌}
use nexide.Ops.Request.{Bytes, RequestMeta, HeaderPair, RequestSlot, new, read_body}

-- What one read returns: the next bytes, as many as fit, and the rest of the buffer untouched.
pub record Reads (slot : RequestSlot) (dst : Bytes) : Type 0 where
  pub count : ℕ
  pub buffer : Bytes
  pub slot' : RequestSlot
  pub reads : read_body slot dst ≡ some (count, buffer, slot')
  pub amount : count ≡ min (length slot.body - slot.body_cursor) (length dst)
  pub filled : take count buffer ≡ take count (drop slot.body_cursor slot.body)
  pub rest : drop count buffer ≡ drop count dst
  pub same_length : length buffer ≡ length dst
  pub moved : slot'.body_cursor ≡ slot.body_cursor + count
  pub within : slot'.body_cursor ≤ length slot'.body
  pub same_body : slot'.body ≡ slot.body

module _ {ℓ} {A : Type ℓ} where
  take_exact : (n : ℕ) (xs ys : List A) → length xs ≡ n → take n (xs ++ ys) ≡ xs
  take_exact zero [] ys h = refl
  take_exact zero (x ∷ xs) ys h = absurd (omega arith)
  take_exact (suc n) [] ys h = absurd (omega arith)
  take_exact (suc n) (x ∷ xs) ys h = ap (◌∷◌ x) (take_exact n xs ys (omega arith))

  drop_exact : (n : ℕ) (xs ys : List A) → length xs ≡ n → drop n (xs ++ ys) ≡ ys
  drop_exact zero [] ys h = refl
  drop_exact zero (x ∷ xs) ys h = absurd (omega arith)
  drop_exact (suc n) [] ys h = absurd (omega arith)
  drop_exact (suc n) (x ∷ xs) ys h = drop_exact n xs ys (omega arith)

  take_nil : (n : ℕ) → take n (let l : List A = [] in l) ≡ []
  take_nil zero = refl
  take_nil (suc n) = refl

  drop_nil : (n : ℕ) → drop n (let l : List A = [] in l) ≡ []
  drop_nil zero = refl
  drop_nil (suc n) = refl

  take-add : (m n : ℕ) (xs : List A) → take (m + n) xs ≡ take m xs ++ take n (drop m xs)
  take-add zero n xs = rw zero-add
  take-add (suc m) n [] = rw (suc-add, take_nil n)
  take-add (suc m) n (x ∷ xs) = rw suc-add (ap (◌∷◌ x) (take-add m n xs))

  drop-drop : (m n : ℕ) (xs : List A) → drop n (drop m xs) ≡ drop (m + n) xs
  drop-drop zero n xs = rw zero-add
  drop-drop (suc m) n [] = rw (suc-add, drop_nil n)
  drop-drop (suc m) n (x ∷ xs) = rw suc-add (drop-drop m n xs)

  take-min : (k : ℕ) (xs : List A) → take (min (length xs) k) xs ≡ take k xs
  take-min zero xs = let e : min (length xs) 0 ≡ 0 = omega arith in rw e
  take-min (suc k) [] = take_nil _
  take-min (suc k) (x ∷ xs) =
      let e : min (suc (length xs)) (suc k) ≡ suc (min (length xs) k) = omega arith in
      rw e (ap (◌∷◌ x) (take-min k xs))

  drop-min : (k : ℕ) (xs : List A) → drop (min (length xs) k) xs ≡ drop k xs
  drop-min zero xs = let e : min (length xs) 0 ≡ 0 = omega arith in rw e
  drop-min (suc k) [] = drop_nil _
  drop-min (suc k) (x ∷ xs) =
      let e : min (suc (length xs)) (suc k) ≡ suc (min (length xs) k) = omega arith in
      rw e (drop-min k xs)

-- A read from a slot whose cursor is inside the body does not panic; it fills as much of the
-- buffer as the body has left, leaves the rest of the buffer, and moves the cursor by that.
pub read_body-Reads :
    (slot : RequestSlot) (dst : Bytes) → slot.body_cursor ≤ length slot.body → Reads slot dst
unfolding read_body
read_body-Reads slot dst h =
    let remaining = drop slot.body_cursor slot.body in
    let left : length remaining ≡ length slot.body - slot.body_cursor =
      length-drop slot.body_cursor slot.body in
    let n = min (length remaining) (length dst) in
    let exact : length (take n remaining) ≡ n = omega (arith, length-take n remaining) in
    let inside : ltb (length slot.body) slot.body_cursor ≡ false = ground arith in
    record {
      count = n;
      buffer = take n remaining ++ drop n dst;
      slot' = record slot { body_cursor = slot.body_cursor + n };
      reads = rw inside;
      amount = omega (arith, left);
      filled = take_exact n (take n remaining) (drop n dst) exact;
      rest = drop_exact n (take n remaining) (drop n dst) exact;
      same_length =
          omega (arith, length-append (take n remaining) (drop n dst), exact, length-drop n dst);
      moved = refl;
      within = omega (arith, left);
      same_body = refl;
    }

-- JavaScript's loop: one read for each buffer, the bytes read put together.
unfoldable pub read_all : RequestSlot → List Bytes → Option (Bytes × RequestSlot)
read_all slot [] = some ([], slot)
read_all slot (dst ∷ rest) = do
  (n, buffer, slot') ← read_body slot dst
  (bytes, last) ← read_all slot' rest
  some (take n buffer ++ bytes, last)

unfoldable pub total : List Bytes → ℕ
total [] = 0
total (dst ∷ rest) = length dst + total rest

-- The bytes of one read and of what follows.
read_then_rest :
    (slot : RequestSlot) (dst : Bytes) (r : Reads slot dst) (m : ℕ)
    → take r.count r.buffer ++ take m (drop r.slot'.body_cursor r.slot'.body)
      ≡ take (length dst + m) (drop slot.body_cursor slot.body)
read_then_rest slot dst r m =
    let remaining = drop slot.body_cursor slot.body in
    let n : r.count ≡ min (length remaining) (length dst) =
      omega (arith, r.amount, length-drop slot.body_cursor slot.body) in
    let now : take r.count r.buffer ≡ take (length dst) remaining =
      r.filled ∙ rw n (take-min (length dst) remaining) in
    let later : drop r.slot'.body_cursor r.slot'.body ≡ drop (length dst) remaining =
      rw (r.moved, r.same_body)
        (sym (drop-drop slot.body_cursor r.count slot.body)
          ∙ rw n (drop-min (length dst) remaining)) in
    rw (now, later) (sym (take-add (length dst) m remaining))

read_all_from :
    (slot : RequestSlot) (buffers : List Bytes)
    → slot.body_cursor ≤ length slot.body
    → (last : RequestSlot) × (read_all slot buffers
        ≡ some (take (total buffers) (drop slot.body_cursor slot.body), last))
      × (last.body ≡ slot.body)
      × (last.body_cursor ≡ min (length slot.body) (slot.body_cursor + total buffers))
unfolding read_all total
read_all_from slot [] h = (slot, refl, refl, omega arith)
read_all_from slot (dst ∷ rest) h =
    let r = read_body-Reads slot dst h in
    let (last, e, b, at) = read_all_from r.slot' rest r.within in
    (
      last,
      rw (r.reads, e) (ap (λ x. some (x, last)) (read_then_rest slot dst r (total rest))),
      b ∙ r.same_body,
      omega (arith, at, r.moved, r.amount, ap (length {A = ℕ}) r.same_body),
    )

-- Reading a fresh request never panics, whatever the buffers' sizes: together they receive the
-- first bytes of the body, in order, none twice and none skipped, up to their total size.
pub read_all_prefix :
    (meta : RequestMeta) (headers : List HeaderPair) (body : Bytes) (buffers : List Bytes)
    → (last : RequestSlot) × (read_all (new meta headers body) buffers
        ≡ some (take (total buffers) body, last))
      × (last.body_cursor ≡ min (length body) (total buffers))
unfolding new
read_all_prefix meta headers body buffers =
    let (last, e, b, at) =
      read_all_from (record { meta = meta; headers = headers; body = body; body_cursor = 0 })
        buffers (omega arith) in
    (last, e, omega (arith, at))
