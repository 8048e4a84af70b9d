-- ===== src/Player/Input.antt =====
-- The input buffer of SimpleServer/Player.cpp is a queue of the 32 newest commands.
use simple_server.Prelude.{
  ℕ, zero, suc, ◌-◌, ◌≤◌, ◌≡◌, refl, sym, ap, ◌∙◌, inl, inr, List, [], ◌∷◌, ◌++◌, arith, leb,
  leb→le, Bool-cases, length, take, drop, tail_of, length-append, length-drop, drop-append_le,
  drop-drop,
}
use mathlib.Core.List.{append_assoc, append-nil}
use simple_server.Player.{
  take_input, Player, InputCmd, max_input_buffer, enqueue_input, dequeue_input, take_input,
}

-- The last `n` elements.
abbrev pub newest {ℓ} : {A : Type ℓ} → ℕ → List A → List A
newest n xs = drop (length xs - n) xs

length-newest {ℓ} : {A : Type ℓ} (n : ℕ) (xs : List A) → length (newest n xs) ≤ n
length-newest n xs = omega (arith, length-drop (length xs - n) xs)

-- Cutting to the newest first does not change the newest of a longer list.
newest-append {ℓ} :
    {A : Type ℓ} (n : ℕ) (xs ys : List A) → newest n (newest n xs ++ ys) ≡ newest n (xs ++ ys)
newest-append n xs ys =
    let k = length xs - n in
    let m = length (drop k xs ++ ys) - n in
    let le : k ≤ length xs = omega arith in
    ap (drop m) (sym (drop-append_le k xs ys le))
    ∙ drop-drop m k (xs ++ ys)
    ∙ ap (λ j. drop j (xs ++ ys))
        (omega (arith, length-append (drop k xs) ys, length-append xs ys, length-drop k xs))

newest_short {ℓ} : {A : Type ℓ} (n : ℕ) (xs : List A) → length xs ≤ n → newest n xs ≡ xs
newest_short n xs h = ap (λ k. drop k xs) (let e : length xs - n ≡ 0 = omega arith in e)

module _ {F : Type 0} where
  -- The network thread's calls, in order.
  abbrev pub enqueue_all : List (InputCmd F) → Player F → Player F
  enqueue_all [] p = p
  enqueue_all (c ∷ cs) p = enqueue_all cs (enqueue_input c p)

  -- The game loop's calls: the commands that it gets, and the player afterwards.
  abbrev pub dequeue_all : F → ℕ → Player F → List (InputCmd F) × Player F
  dequeue_all zero_f zero p = ([], p)
  dequeue_all zero_f (suc n) p =
      let (c, p1) = dequeue_input zero_f p in let (cs, p2) = dequeue_all zero_f n p1 in (c ∷ cs, p2)

  newest_full :
      (q : List (InputCmd F)) (c : InputCmd F)
      → length q ≡ 32
      → tail_of q ++ (c ∷ []) ≡ newest max_input_buffer (q ++ (c ∷ []))
  newest_full [] c h = absurd (omega arith)
  newest_full (x ∷ q) c h =
      let one : length (x ∷ q ++ (c ∷ [])) - 32 ≡ 1 =
        omega (arith, length-append (x ∷ q) (c ∷ [])) in
      ap (λ k. drop k (x ∷ q ++ (c ∷ []))) (sym one)

  buffer-enqueue_input :
      (c : InputCmd F) (p : Player F)
      → length p.input_buffer ≤ max_input_buffer
      → (enqueue_input c p).input_buffer ≡ newest max_input_buffer (p.input_buffer ++ (c ∷ []))
  unfolding enqueue_input
  buffer-enqueue_input c p h =
      let q = p.input_buffer in
      elim (Bool-cases (leb 32 (length q))) [
        | inl full ↦ rw full (newest_full q c (let g = leb→le 32 (length q) full in omega arith))
        | inr room ↦
            rw room
              (sym (newest_short 32 (q ++ (c ∷ [])) (ground (arith, length-append q (c ∷ [])))))
      ]

  pub length-enqueue_input :
      (c : InputCmd F) (p : Player F)
      → length p.input_buffer ≤ max_input_buffer
      → length (enqueue_input c p).input_buffer ≤ max_input_buffer
  length-enqueue_input c p h =
      rw (buffer-enqueue_input c p h) (length-newest max_input_buffer (p.input_buffer ++ (c ∷ [])))

  -- After any calls of `EnqueueInput` a buffer of at most 32 commands holds the 32 newest commands of
  -- what it held and of what came, in their order.
  pub enqueue_all-newest :
      (cs : List (InputCmd F)) (p : Player F)
      → length p.input_buffer ≤ max_input_buffer
      → (enqueue_all cs p).input_buffer ≡ newest max_input_buffer (p.input_buffer ++ cs)
  enqueue_all-newest [] p h =
      rw (append-nil p.input_buffer) (sym (newest_short max_input_buffer p.input_buffer h))
  enqueue_all-newest (c ∷ cs) p h =
      let e = buffer-enqueue_input c p h in
      enqueue_all-newest cs (enqueue_input c p)
        (rw e (length-newest max_input_buffer (p.input_buffer ++ (c ∷ []))))
      ∙ rw e (
          newest-append max_input_buffer (p.input_buffer ++ (c ∷ [])) cs
          ∙ ap (newest max_input_buffer) (append_assoc p.input_buffer (c ∷ []) cs))

  dequeue_front :
      (zero_f : F) (n : ℕ) (q : List (InputCmd F)) (p : Player F)
      → p.input_buffer ≡ q
      → n ≤ length q
      → dequeue_all zero_f n p ≡ (take n q, record p { input_buffer = drop n q })
  unfolding dequeue_input
  dequeue_front zero_f zero q p e h = ap (λ l. ([], record p { input_buffer = l })) e
  dequeue_front zero_f (suc n) [] p e h = absurd (omega arith)
  dequeue_front zero_f (suc n) (c ∷ q) p e h =
      let step : dequeue_input zero_f p ≡ (c, record p { input_buffer = q }) =
        ap (λ l. take_input zero_f l p) e in
      ap (λ (t : InputCmd F × Player F). let r = dequeue_all zero_f n t.1 in (t.0 ∷ r.0, r.1)) step
      ∙ ap (λ (r : List (InputCmd F) × Player F). (c ∷ r.0, r.1))
          (dequeue_front zero_f n q (record p { input_buffer = q }) refl (omega arith))

  -- Dequeuing at most as often as there are commands gives them oldest first, and takes exactly
  -- those off.
  pub dequeue_all_lem :
      (zero_f : F) (n : ℕ) (p : Player F)
      → n ≤ length p.input_buffer
      → dequeue_all zero_f n p
        ≡ (take n p.input_buffer, record p { input_buffer = drop n p.input_buffer })
  dequeue_all_lem zero_f n p h = dequeue_front zero_f n p.input_buffer p refl h
