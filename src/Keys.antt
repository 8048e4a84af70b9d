-- ===== src/Keys.antt =====
-- Sets and maps by their keys: the `std::unordered_set` of ServerCore/NetService.h and the
-- `std::unordered_map` of SimpleServer/GameRoom.h, as lists of keys. The order of the list is the
-- order of iteration.
use simple_server.Prelude.{
  ℕ, ◌≡◌, refl, ◌≢◌, inl, inr, Bool, false, ◌||◌, List, [], ◌∷◌, ◌++◌, arith, ◌==◌, if◌then◌else◌,
  Bool-cases, if_both,
}

-- Whether a key is in the list.
unfoldable pub has_key : ℕ → List ℕ → Bool
has_key id [] = false
has_key id (k ∷ ks) = k == id || has_key id ks

unfoldable pub insert_key : ℕ → List ℕ → List ℕ
unfolding has_key
insert_key id ks = if has_key id ks then ks else ks ++ (id ∷ [])

unfoldable pub erase_key : ℕ → List ℕ → List ℕ
erase_key id [] = []
erase_key id (k ∷ ks) = if k == id then ks else k ∷ erase_key id ks

-- The keys other than `id`, in their order.
unfoldable pub others_of : ℕ → List ℕ → List ℕ
others_of id [] = []
others_of id (k ∷ ks) = let rest = others_of id ks in if k == id then rest else k ∷ rest

-- No key twice.
abbrev pub IsUnique : List ℕ → Type 0
IsUnique [] = Unit {0}
IsUnique (k ∷ ks) = (has_key k ks ≡ false) × IsUnique ks

pub has_key-append :
    (id k : ℕ) (ks : List ℕ) → has_key k (ks ++ (id ∷ [])) ≡ (has_key k ks || id == k)
unfolding has_key
has_key-append id k [] = ground arith
has_key-append id k (j ∷ ks) = ground (arith, has_key-append id k ks)

pub IsUnique-append :
    (id : ℕ) (ks : List ℕ) → has_key id ks ≡ false → IsUnique ks → IsUnique (ks ++ (id ∷ []))
unfolding has_key
IsUnique-append id [] h u = (refl, tt)
IsUnique-append id (k ∷ ks) h u =
    (ground (arith, has_key-append id k ks, u.0), IsUnique-append id ks (ground arith) u.1)

pub has_key-insert_key :
    (id k : ℕ) (ks : List ℕ) → has_key k (insert_key id ks) ≡ (has_key k ks || id == k)
unfolding insert_key
has_key-insert_key id k ks = ground (arith, has_key-append id k ks)

pub IsUnique-insert_key : (id : ℕ) (ks : List ℕ) → IsUnique ks → IsUnique (insert_key id ks)
unfolding insert_key
IsUnique-insert_key id ks u = elim (Bool-cases (has_key id ks)) [
  | inl e ↦ rw e u
  | inr e ↦ rw e (IsUnique-append id ks e u)
]

pub has_key-erase_key_self :
    (id : ℕ) (ks : List ℕ) → IsUnique ks → has_key id (erase_key id ks) ≡ false
unfolding has_key erase_key
has_key-erase_key_self id [] u = refl
has_key-erase_key_self id (k ∷ ks) u = ground (arith, u.0, has_key-erase_key_self id ks u.1)

pub has_key-erase_key_ne :
    (id k : ℕ) (ks : List ℕ) → k ≢ id → has_key k (erase_key id ks) ≡ has_key k ks
unfolding has_key erase_key
has_key-erase_key_ne id k [] n = refl
has_key-erase_key_ne id k (j ∷ ks) n = ground (arith, has_key-erase_key_ne id k ks)

pub has_key-erase_key_absent :
    (id k : ℕ) (ks : List ℕ) → has_key k ks ≡ false → has_key k (erase_key id ks) ≡ false
unfolding has_key erase_key
has_key-erase_key_absent id k [] h = refl
has_key-erase_key_absent id k (j ∷ ks) h = ground (arith, has_key-erase_key_absent id k ks)

pub IsUnique-erase_key : (id : ℕ) (ks : List ℕ) → IsUnique ks → IsUnique (erase_key id ks)
unfolding erase_key
IsUnique-erase_key id [] u = tt
IsUnique-erase_key id (k ∷ ks) u =
    if_both IsUnique (k == id) _ _ u.1
      (has_key-erase_key_absent id k ks u.0, IsUnique-erase_key id ks u.1)

-- What erasing does to a list without repetitions.
pub erase_key_absent : (id : ℕ) (ks : List ℕ) → has_key id ks ≡ false → erase_key id ks ≡ ks
unfolding has_key erase_key
erase_key_absent id [] h = refl
erase_key_absent id (k ∷ ks) h = ground (arith, erase_key_absent id ks)
