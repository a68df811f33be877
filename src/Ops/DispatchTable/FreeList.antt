-- ===== src/Ops/DispatchTable/FreeList.antt =====
-- The free list of the arena: a chain through the vacant slots, each of them once.
use nexide.Prelude.{
  ℕ, zero, suc, ◌+◌, ◌≡◌, refl, ◌∙◌, ◌≢◌, List, [], ◌∷◌, ◌++◌, Option, none, some, arith, length,
  get_elem?, set, length-set, get_elem?-set_self, get_elem?-set_ne, get_elem?-append_left,
  lt_of_get_elem?, length-append,
}
use nexide.Ops.DispatchTable.{Slot, vacant, occupied, InFlight}

abbrev pub NotIn : ℕ → List ℕ → Type 0
NotIn i [] = Unit {0}
NotIn i (j ∷ l) = (i ≢ j) × NotIn i l

abbrev pub Distinct : List ℕ → Type 0
Distinct [] = Unit {0}
Distinct (i ∷ l) = NotIn i l × Distinct l

-- `l` is what following `next_free` from the head `h` visits, all of it vacant.
abbrev pub Chain : List Slot → Option ℕ → List ℕ → Type 0
Chain slots h [] = h ≡ none
Chain slots h (i ∷ l) =
    (g : ℕ) × (next : Option ℕ) × (h ≡ some i)
    × (get_elem? slots i ≡ some (vacant g next))
    × Chain slots next l

abbrev pub weight : Slot → ℕ
weight (vacant g next) = 0
weight (occupied g x) = 1

unfoldable pub occupied_count : List Slot → ℕ
occupied_count [] = 0
occupied_count (s ∷ ss) = weight s + occupied_count ss

pub record IsFreeList (slots : List Slot) (h : Option ℕ) (l : List ℕ) : Type 0 where
  pub chain : Chain slots h l
  pub distinct : Distinct l
  pub complete : length l + occupied_count slots ≡ length slots

pub occupied_count-set :
    (slots : List Slot) (i : ℕ) (s s' : Slot)
    → get_elem? slots i ≡ some s
    → occupied_count (set slots i s') + weight s ≡ occupied_count slots + weight s'
unfolding occupied_count
occupied_count-set [] i s s' h = absurd (ground arith)
occupied_count-set (x ∷ xs) zero s s' h = ground arith
occupied_count-set (x ∷ xs) (suc i) s s' h = omega (arith, occupied_count-set xs i s s' h)

pub occupied_count-append :
    (xs ys : List Slot) → occupied_count (xs ++ ys) ≡ occupied_count xs + occupied_count ys
unfolding occupied_count
occupied_count-append [] ys = omega arith
occupied_count-append (x ∷ xs) ys = omega (arith, occupied_count-append xs ys)

-- An occupied slot is not on the free list.
Chain-NotIn :
    (slots : List Slot) (h : Option ℕ) (l : List ℕ) (i g : ℕ) (x : InFlight)
    → get_elem? slots i ≡ some (occupied g x)
    → Chain slots h l
    → NotIn i l
Chain-NotIn slots h [] i g x e c = tt
Chain-NotIn slots h (j ∷ l) i g x e (g', next, hd, at, c) =
    ((λ same. cc), Chain-NotIn slots next l i g x e c)

-- A write elsewhere leaves the chain.
Chain-set :
    (slots : List Slot) (h : Option ℕ) (l : List ℕ) (i : ℕ) (s : Slot)
    → NotIn i l
    → Chain slots h l
    → Chain (set slots i s) h l
Chain-set slots h [] i s n c = c
Chain-set slots h (j ∷ l) i s (ne, n) (g, next, hd, at, c) =
    (g, next, hd, get_elem?-set_ne slots s ne ∙ at, Chain-set slots next l i s n c)

Chain-append :
    (slots : List Slot) (h : Option ℕ) (l : List ℕ) (more : List Slot)
    → Chain slots h l
    → Chain (slots ++ more) h l
Chain-append slots h [] more c = c
Chain-append slots h (j ∷ l) more (g, next, hd, at, c) =
    (g, next, hd, get_elem?-append_left slots j more _ at, Chain-append slots next l more c)

-- Releasing an occupied slot puts it in front of the free list.
pub release-IsFreeList :
    (slots : List Slot) (h : Option ℕ) (l : List ℕ) (i g g' : ℕ) (x : InFlight)
    → get_elem? slots i ≡ some (occupied g x)
    → IsFreeList slots h l
    → IsFreeList (set slots i (vacant g' h)) (some i) (i ∷ l)
release-IsFreeList slots h l i g g' x e f = record {
  chain = (
    g',
    h,
    refl,
    get_elem?-set_self slots i _ (lt_of_get_elem? slots i _ e),
    Chain-set slots h l i _ (Chain-NotIn slots h l i g x e f.chain) f.chain,
  );
  distinct = (Chain-NotIn slots h l i g x e f.chain, f.distinct);
  complete = omega (
    arith,
    f.complete,
    length-set slots i (vacant g' h),
    occupied_count-set slots i (occupied g x) (vacant g' h) e,
  );
}

-- Occupying the head of the free list takes it off.
pub activate-IsFreeList :
    (slots : List Slot) (h : Option ℕ) (l : List ℕ) (i g : ℕ) (next : Option ℕ) (x : InFlight)
    → get_elem? slots i ≡ some (vacant g next)
    → IsFreeList slots h (i ∷ l)
    → IsFreeList (set slots i (occupied g x)) next l
activate-IsFreeList slots h l i g next x e f =
    let (g', next', hd, at, c) = f.chain in
    let same : next' ≡ next = cc in
    record {
      chain = Chain-set slots next l i _ f.distinct.0 (rw same at c);
      distinct = f.distinct.1;
      complete = omega (
        arith,
        f.complete,
        length-set slots i (occupied g x),
        occupied_count-set slots i (vacant g next) (occupied g x) e,
      );
    }

-- Growing the arena by an occupied slot leaves the free list.
pub grow-IsFreeList :
    (slots : List Slot) (h : Option ℕ) (l : List ℕ) (g : ℕ) (x : InFlight)
    → IsFreeList slots h l
    → IsFreeList (slots ++ occupied g x ∷ []) h l
unfolding occupied_count
grow-IsFreeList slots h l g x f = record {
  chain = Chain-append slots h l _ f.chain;
  distinct = f.distinct;
  complete = omega (
    arith,
    f.complete,
    length-append slots (occupied g x ∷ []),
    occupied_count-append slots (occupied g x ∷ []),
  );
}

-- The head of the free list is a vacant slot.
pub head_vacant :
    (slots : List Slot) (i : ℕ) (l : List ℕ)
    → Chain slots (some i) l
    → (g : ℕ) × (next : Option ℕ) × (rest : List ℕ) × (l ≡ i ∷ rest)
      × (get_elem? slots i ≡ some (vacant g next))
head_vacant slots i [] c = cc
head_vacant slots i (j ∷ l) (g, next, hd, at, c) =
    let same : i ≡ j = cc in (g, next, l, rw same, rw same at)

-- An empty free list means that every slot is occupied.
pub full_of_no_head : (slots : List Slot) (l : List ℕ) → Chain slots none l → l ≡ []
full_of_no_head slots [] c = refl
full_of_no_head slots (j ∷ l) (g, next, hd, at, c) = cc

-- Rewriting an occupied slot's request leaves the free list.
pub overwrite-IsFreeList :
    (slots : List Slot) (h : Option ℕ) (l : List ℕ) (i g g' : ℕ) (x y : InFlight)
    → get_elem? slots i ≡ some (occupied g x)
    → IsFreeList slots h l
    → IsFreeList (set slots i (occupied g' y)) h l
overwrite-IsFreeList slots h l i g g' x y e f = record {
  chain = Chain-set slots h l i _ (Chain-NotIn slots h l i g x e f.chain) f.chain;
  distinct = f.distinct;
  complete = omega (
    arith,
    f.complete,
    length-set slots i (occupied g' y),
    occupied_count-set slots i (occupied g x) (occupied g' y) e,
  );
}
