-- ===== src/Scrollback/Valid.antt =====
-- What every ring of saved lines keeps, and that its operations never panic.
use pitviper.Base.{
  ℕ, ◌+◌, ◌%◌, ◌≤◌, ◌<◌, ◌^◌, ◌≡◌, arith, some, List, [], length, length-set, length-replicate,
  get_elem?-some, Returns,
}
use pitviper.Slice.{store, load}
use pitviper.Scrollback.{Scrollback, new_scrollback, push, line}

pub record IsValid {A : Type 0} (sb : Scrollback A) : Type 0 where
  pub small : length sb.lines < 2 ^ 32
  pub head_in : sb.head < length sb.lines
  pub count_in : sb.count ≤ length sb.lines

module _ {A : Type 0} where
  pub new_scrollback-IsValid :
      (cap : ℕ) → 1 ≤ cap → cap < 2 ^ 32 → IsValid (new_scrollback {A = A} cap)
  unfolding new_scrollback
  new_scrollback-IsValid cap h k = ground (arith, length-replicate {A = List A} cap [])

  -- `push` returns, with the invariant and the capacity kept, and one line more up to the capacity.
  pub push-IsValid :
      {sb : Scrollback A} (l : List A)
      → IsValid sb
      → Returns
          (λ t. IsValid t × (length t.lines ≡ length sb.lines) × (sb.count ≤ t.count))
          (push sb l)
  unfolding push store
  push-IsValid {sb} l v = ground (
    arith,
    length-set sb.lines ((sb.head + sb.count) % length sb.lines) l,
    length-set sb.lines sb.head l,
  )

  pub line-Returns :
      {sb : Scrollback A} (i : ℕ) → IsValid sb → i < sb.count → (l : List A) × (line sb i ≡ some l)
  unfolding line load
  line-Returns {sb} i v h =
      let (l, e) = get_elem?-some sb.lines ((sb.head + i) % length sb.lines) (omega arith) in
      (l, ground (arith, e))
