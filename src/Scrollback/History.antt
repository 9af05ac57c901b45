-- ===== src/Scrollback/History.antt =====
-- The ring against its abstract view: the bounded history of lines, oldest first.
use pitviper.Base.{
  ℕ, zero, suc, ◌+◌, ◌-◌, ◌%◌, ◌≤◌, ◌<◌, ◌≡◌, refl, ap, arith, Bool-cases, inl, inr, ltb, ◌==◌,
  if◌then◌else◌, Option, none, some, List, [], ◌∷◌, ◌++◌, length, get_elem?, drop, set, length-set,
  get_elem?-drop, get_elem?-append_left, get_elem?-append_right, get_elem?-set_self,
  get_elem?-set_ne, ext_get_elem?,
}
use native.Mathlib.Nat.{add-zero, zero-add, mod-eq_of_lt, mod-eq-sub-mod}
use native.Mathlib.Decide.{dec_lt}
use pitviper.Slice.{store, load}
use pitviper.Scrollback.{Scrollback, push, line}
use pitviper.Scrollback.Valid.{IsValid, line-Returns}

add-one_left : (i k : ℕ) → i + 1 + k ≡ i + suc k
add-one_left i k = omega arith

-- An index of the ring, with at most one turn.
ring_index :
    (cap h i : ℕ)
    → h < cap
    → i ≤ cap
    → (h + i) % cap ≡ (if ltb (h + i) cap then h + i else h + i - cap)
ring_index cap h i p q = elim (dec_lt (h + i) cap) [
  | yes below ↦ ground (arith, mod-eq_of_lt {n = h + i} {m = cap} below)
  | no above ↦ ground (
    arith,
    mod-eq-sub-mod {n = h + i} {m = cap} (omega arith),
    mod-eq_of_lt {n = h + i - cap} {m = cap} (omega arith),
  )
]

module _ {A : Type 0} where
  abbrev or_nil : Option (List A) → List A
  or_nil none = []
  or_nil (some l) = l

  -- The lines `i`, `i + 1`, ..., `n` of them.
  abbrev history_from : Scrollback A → ℕ → ℕ → List (List A)
  history_from sb i zero = []
  history_from sb i (suc n) = or_nil (line sb i) ∷ history_from sb (i + 1) n

  -- What the ring holds, oldest line first.
  unfoldable pub history : Scrollback A → List (List A)
  history sb = history_from sb 0 sb.count

  -- A bounded history takes a line at its end, and forgets its oldest line when it is full.
  unfoldable pub remember : ℕ → List (List A) → List A → List (List A)
  remember cap ls l = drop (length ls + 1 - cap) (ls ++ l ∷ [])

  get_elem?-history_from :
      (sb : Scrollback A) (i n k : ℕ)
      → get_elem? (history_from sb i n) k
        ≡ (if ltb k n then some (or_nil (line sb (i + k))) else none)
  get_elem?-history_from sb i zero k = ground arith
  get_elem?-history_from sb i (suc n) zero = ground (arith, ap (line sb) (add-zero i))
  get_elem?-history_from sb i (suc n) (suc k) =
      ground (arith, get_elem?-history_from sb (i + 1) n k, ap (line sb) (add-one_left i k))

  length-history_from : (sb : Scrollback A) (i n : ℕ) → length (history_from sb i n) ≡ n
  length-history_from sb i zero = refl
  length-history_from sb i (suc n) = ap suc (length-history_from sb (i + 1) n)

  -- An entry of the history is the line that `line` returns.
  -- Index `i` of the history of a valid ring, below its count, is what `line` returns at `i`.
  get_elem?-history :
      {sb : Scrollback A} (i : ℕ) → IsValid sb → i < sb.count → get_elem? (history sb) i ≡ line sb i
  unfolding history
  get_elem?-history {sb} i v h =
      let (l, e) = line-Returns i v h in
      ground (arith, e, get_elem?-history_from sb 0 sb.count i, ap (line sb) (zero-add i))

  get_elem?-singleton :
      (l : List A) (k : ℕ) → get_elem? (l ∷ []) k ≡ (if k == 0 then some l else none)
  get_elem?-singleton l zero = ground arith
  get_elem?-singleton l (suc k) = ground arith

  line-lt :
      (sb : Scrollback A) (i : ℕ)
      → IsValid sb
      → i < sb.count
      → line sb i ≡ get_elem? sb.lines ((sb.head + i) % length sb.lines)
  unfolding line load
  line-lt sb i v h = ground arith

  push_room :
      (sb : Scrollback A) (l : List A)
      → IsValid sb
      → sb.count < length sb.lines
      → push sb l
        ≡ some (record sb {
          lines = set sb.lines ((sb.head + sb.count) % length sb.lines) l;
          count = sb.count + 1;
        })
  unfolding push store
  push_room sb l v h = ground arith

  push_full :
      (sb : Scrollback A) (l : List A)
      → IsValid sb
      → length sb.lines ≤ sb.count
      → push sb l
        ≡ some
            (record sb { lines = set sb.lines sb.head l; head = (sb.head + 1) % length sb.lines })
  unfolding push store
  push_full sb l v h = ground arith

  module _ (sb t : Scrollback A) (l : List A) (v : IsValid sb) (e : push sb l ≡ some t) where
    line-push_room :
        (i : ℕ)
        → sb.count < length sb.lines
        → i < t.count
        → line t i ≡ (if i == sb.count then some l else line sb i)
    unfolding line load
    line-push_room i h p =
        let cap : ℕ = length sb.lines in
        let to : ℕ = (sb.head + sb.count) % cap in
        ground (
          arith,
          push_room sb l v h,
          length-set sb.lines to l,
          ring_index cap sb.head i,
          ring_index cap sb.head sb.count,
          get_elem?-set_self sb.lines to l,
          get_elem?-set_ne sb.lines to ((sb.head + i) % cap) l,
        )

    line-push_full :
        (i : ℕ)
        → length sb.lines ≤ sb.count
        → i < t.count
        → line t i ≡ (if i + 1 == sb.count then some l else line sb (i + 1))
    unfolding line load
    line-push_full i h p =
        let cap : ℕ = length sb.lines in
        ground (
          arith,
          push_full sb l v h,
          length-set sb.lines sb.head l,
          ring_index cap sb.head 1,
          ring_index cap ((sb.head + 1) % cap) i,
          ring_index cap sb.head (i + 1),
          get_elem?-set_self sb.lines sb.head l,
          get_elem?-set_ne sb.lines sb.head ((sb.head + (i + 1)) % cap) l,
        )

    count-push : t.count ≡ (if ltb sb.count (length sb.lines) then sb.count + 1 else sb.count)
    count-push = elim (Bool-cases (ltb sb.count (length sb.lines))) [
      | inl room ↦ ground (arith, push_room sb l v)
      | inr full ↦ ground (arith, push_full sb l v)
    ]

    get_elem?-push :
        (k : ℕ) → get_elem? (history t) k ≡ get_elem? (remember (length sb.lines) (history sb) l) k
    unfolding history remember
    get_elem?-push k =
        let cap : ℕ = length sb.lines in
        let old : List (List A) = history_from sb 0 sb.count in
        let d : ℕ = length old + 1 - cap in
        ground (
          arith,
          count-push,
          length-history_from sb 0 sb.count,
          get_elem?-history_from t 0 t.count k,
          get_elem?-history_from sb 0 sb.count (d + k),
          get_elem?-drop d (old ++ l ∷ []) k,
          get_elem?-append_left old (l ∷ []) (d + k),
          get_elem?-append_right old (l ∷ []) (d + k),
          get_elem?-singleton l (d + k - length old),
          line-push_room k,
          line-push_full k,
          ap (line t) (zero-add k),
          ap (line sb) (zero-add (d + k)),
          v,
        )

    -- Pushing a line is remembering it: the ring holds the last lines pushed, in order, and forgets
    -- the oldest only when it is full.
    pub history-push : history t ≡ remember (length sb.lines) (history sb) l
    history-push =
        ext_get_elem? (history t) (remember (length sb.lines) (history sb) l) get_elem?-push
