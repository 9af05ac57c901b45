-- ===== src/Slice/Laws.antt =====
-- What the slice operations yield, element by element, when their indices are in range.
use pitviper.Base.{
  ℕ, zero, suc, ◌+◌, ◌-◌, ◌≤◌, ◌<◌, ◌≡◌, refl, ap, ◌∙◌, arith, Bool, ◌&&◌, ltb, leb, inl, inr,
  Bool-cases, if◌then◌else◌, Option, none, some, ext_get_elem?, get_elem?-none, List, ◌++◌, length,
  get_elem?, set, take, drop, length-append, length-take, length-drop, length-set,
  get_elem?-set_self, get_elem?-set_ne, get_elem?-take, get_elem?-drop, get_elem?-append_left,
  get_elem?-append_right, min,
}
use native.Mathlib.Nat.{sub-zero}
use pitviper.Slice.{store, fill, slice, overwrite, copy_into, copy_within}

-- The computation returns a slice of `n` elements, `f k` at each index `k`.
pub record Yields {A : Type 0} (n : ℕ) (f : ℕ → Option A) (r : Option (List A)) : Type 0 where
  pub out : List A
  pub returns : r ≡ some out
  pub size : length out ≡ n
  pub elems : (k : ℕ) → get_elem? out k ≡ f k

-- Index `k` lies in the range from `a` up to `b`.
abbrev pub within : ℕ → ℕ → ℕ → Bool
within a b k = leb a k && ltb k b

module _ {A : Type 0} where
  pub store-Yields :
      (xs : List A) (i : ℕ) (v : A)
      → i < length xs
      → Yields
          (length xs)
          (λ k. if within i (i + 1) k then some v else get_elem? xs k)
          (store xs i v)
  unfolding store
  store-Yields xs i v h = record {
    out = set xs i v;
    returns = ground arith;
    size = length-set xs i v;
    elems = λ k. ground (arith, get_elem?-set_self xs i v h, get_elem?-set_ne xs i k v);
  }

  pub fill-Yields :
      (xs : List A) (i n : ℕ) (v : A)
      → i + n ≤ length xs
      → Yields
          (length xs)
          (λ k. if within i (i + n) k then some v else get_elem? xs k)
          (fill xs i n v)
  unfolding fill store
  fill-Yields xs i zero v h = record {
    out = xs;
    returns = refl;
    size = refl;
    elems = λ k. ground arith;
  }
  fill-Yields xs i (suc n) v h =
      let rest = fill-Yields (set xs i v) (i + 1) n v (omega (arith, length-set xs i v)) in
      record {
        out = rest.out;
        returns = ground (arith, rest.returns);
        size = rest.size ∙ length-set xs i v;
        elems =
            λ k. ground (arith, rest.elems k, get_elem?-set_self xs i v, get_elem?-set_ne xs i k v);
      }

  pub slice-Yields :
      (xs : List A) (a b : ℕ)
      → a ≤ b
      → b ≤ length xs
      → slice xs a b ≡ some (take (b - a) (drop a xs))
  unfolding slice
  slice-Yields xs a b p q = ground arith

  pub overwrite-size :
      (xs : List A) (a n : ℕ) (ys : List A)
      → a + n ≤ length xs
      → n ≤ length ys
      → length (overwrite xs a n ys) ≡ length xs
  unfolding overwrite
  overwrite-size xs a n ys p q = omega (
    arith,
    length-append (take a xs) (take n ys ++ drop (a + n) xs),
    length-append (take n ys) (drop (a + n) xs),
    length-take a xs,
    length-take n ys,
    length-drop (a + n) xs,
  )

  pub overwrite-elems :
      (xs : List A) (a n : ℕ) (ys : List A) (k : ℕ)
      → a + n ≤ length xs
      → n ≤ length ys
      → get_elem? (overwrite xs a n ys) k
        ≡ (if within a (a + n) k then get_elem? ys (k - a) else get_elem? xs k)
  unfolding overwrite
  overwrite-elems xs a n ys k p q = elim (Bool-cases (ltb k a)) [
    | inl before ↦ ground (
      arith,
      get_elem?-append_left (take a xs) (take n ys ++ drop (a + n) xs) k,
      length-take a xs,
      get_elem?-take a xs k,
    )
    | inr after ↦ elim (Bool-cases (ltb k (a + n))) [
      | inl inside ↦ ground (
        arith,
        get_elem?-append_right (take a xs) (take n ys ++ drop (a + n) xs) k,
        length-take a xs,
        get_elem?-append_left (take n ys) (drop (a + n) xs) (k - a),
        length-take n ys,
        get_elem?-take n ys (k - a),
      )
      | inr behind ↦ ground (
        arith,
        get_elem?-append_right (take a xs) (take n ys ++ drop (a + n) xs) k,
        length-take a xs,
        get_elem?-append_right (take n ys) (drop (a + n) xs) (k - a),
        length-take n ys,
        get_elem?-drop (a + n) xs (k - a - n),
      )
    ]
  ]

  -- A copy of no more elements than the target range holds.
  pub copy_into-Yields :
      (xs : List A) (a b n : ℕ) (ys : List A)
      → a + n ≤ b
      → b ≤ length xs
      → length ys ≡ n
      → Yields
          (length xs)
          (λ k. if within a (a + n) k then get_elem? ys (k - a) else get_elem? xs k)
          (copy_into xs a b ys)
  unfolding copy_into
  copy_into-Yields xs a b n ys p q e = record {
    out = overwrite xs a n ys;
    returns = rw (slice-Yields xs a b (omega arith) q) (
        ap (λ m. some (overwrite xs a m ys))
          (omega (arith, length-take (b - a) (drop a xs), length-drop a xs)));
    size = overwrite-size xs a n ys (omega arith) (omega arith);
    elems = λ k. overwrite-elems xs a n ys k (omega arith) (omega arith);
  }

  -- A copy that stops at the end of the shorter side.
  pub copy_into_cut-Yields :
      (xs : List A) (a b : ℕ) (ys : List A)
      → a ≤ b
      → b ≤ length xs
      → Yields
          (length xs)
          (λ k.
            if within a (a + min (b - a) (length ys)) k
            then get_elem? ys (k - a)
            else get_elem? xs k)
          (copy_into xs a b ys)
  unfolding copy_into
  copy_into_cut-Yields xs a b ys p q =
      let n : ℕ = min (b - a) (length ys) in
      record {
        out = overwrite xs a n ys;
        returns = rw (slice-Yields xs a b p q) (
            ap (λ m. some (overwrite xs a m ys))
              (omega (arith, length-take (b - a) (drop a xs), length-drop a xs)));
        size = overwrite-size xs a n ys (omega arith) (omega arith);
        elems = λ k. overwrite-elems xs a n ys k (omega arith) (omega arith);
      }

  pub copy_within_short-Yields :
      (xs : List A) (a b c n : ℕ)
      → a + n ≤ b
      → b ≤ length xs
      → c + n ≤ length xs
      → Yields
          (length xs)
          (λ k. if within a (a + n) k then get_elem? xs (c + (k - a)) else get_elem? xs k)
          (copy_within xs a b c (c + n))
  unfolding copy_within
  copy_within_short-Yields xs a b c n p q r =
      let src : List A = take (c + n - c) (drop c xs) in
      let size : length src ≡ n =
        omega (arith, length-take (c + n - c) (drop c xs), length-drop c xs) in
      let done = copy_into-Yields xs a b n src p q size in
      record {
        out = done.out;
        returns = rw (slice-Yields xs c (c + n) (omega arith) r) done.returns;
        size = done.size;
        elems = λ k. ground (
          arith,
          done.elems k,
          get_elem?-take (c + n - c) (drop c xs) (k - a),
          get_elem?-drop c xs (k - a),
        );
      }

  -- A copy between ranges of the same length.
  pub copy_within-Yields :
      (xs : List A) (a c n : ℕ)
      → a + n ≤ length xs
      → c + n ≤ length xs
      → Yields
          (length xs)
          (λ k. if within a (a + n) k then get_elem? xs (c + (k - a)) else get_elem? xs k)
          (copy_within xs a (a + n) c (c + n))
  copy_within-Yields xs a c n p q = copy_within_short-Yields xs a (a + n) c n (omega arith) p q

  -- A copy of all of a slice of the same length.
  pub copy_all : (xs ys : List A) → length ys ≡ length xs → copy_into xs 0 (length xs) ys ≡ some ys
  copy_all xs ys e =
      let d = copy_into-Yields xs 0 (length xs) (length xs) ys (omega arith) (omega arith) e in
      d.returns ∙ ap some (ext_get_elem? d.out ys (λ k. d.elems k ∙ all k))
    where
      all :
          (k : ℕ)
          → (if within 0 (0 + length xs) k then get_elem? ys (k - 0) else get_elem? xs k)
            ≡ get_elem? ys k
      all k =
          ground (arith, get_elem?-none xs k, get_elem?-none ys k, ap (get_elem? ys) (sub-zero k))

  -- A fill that leaves the slice panics.
  pub fill-panics :
      (xs : List A) (i n : ℕ) (v : A) → 1 ≤ n → length xs < i + n → fill xs i n v ≡ none
  unfolding fill store
  fill-panics xs i zero v p h = elim p [ ]
  fill-panics xs i (suc zero) v p h = ground arith
  fill-panics xs i (suc (suc n)) v p h =
      let rest : i < length xs → fill (set xs i v) (i + 1) (suc n) v ≡ none = λ q.
        fill-panics (set xs i v) (i + 1) (suc n) v (omega arith)
          (omega (arith, length-set xs i v)) in
      ground (arith, rest)
