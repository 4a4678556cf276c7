-- ===== src/Partition/Cover.antt =====
-- The partitions of a table, taken together.
use sql_query_optimizer.Prelude.{
  ℕ, zero, suc, ◌+◌, ◌%◌, ◌<◌, ◌≡◌, refl, sym, ◌∙◌, Bool, true, false, Option, none, some, List, [],
  ◌∷◌, ◌++◌, keep_if, get_elem?, ltb, arith,
}
use sql_query_optimizer.Prelude.Totals.{total, total-append, SameItems}
use sql_query_optimizer.Prelude.Int.{ℤ, pos, negsuc}
use sql_query_optimizer.Ast.{Literal, integer}
use sql_query_optimizer.Storage.{Table}
use sql_query_optimizer.Execution.Eval.{Row}
use sql_query_optimizer.Partition.{
  partition_of, minus, wrap_negative, find_id, owns, filter_table_to_partition,
}

wrap-minus : (k w : ℕ) → k < w → wrap_negative (minus k) w < w
wrap-minus zero w h = h
wrap-minus (suc k) w h = omega arith

-- With a worker at all, every id, negative ones too, belongs to one of the workers.
pub partition_of-lt : (id : ℤ) (n : ℕ) → 0 < n → partition_of id n < n
unfolding partition_of
partition_of-lt id zero h = h
partition_of-lt (pos k) (suc w) h = omega arith
partition_of-lt (negsuc k) (suc w) h = wrap-minus ((k + 1) % suc w) (suc w) (omega arith)

-- The rows that have an integer id.
abbrev pub is_integer : Option Literal → Bool
is_integer (some (integer id)) = true
is_integer _ = false

abbrev pub has_id : ℕ → Row → Bool
has_id col row = is_integer (get_elem? row col)

-- The partitions of the workers below `k`, one after the other.
abbrev pub partitions : Table → ℕ → ℕ → List Row
partitions t n zero = []
partitions t n (suc k) = partitions t n k ++ (filter_table_to_partition t k n).rows

-- The rows owned by a worker below `k`.
abbrev id_below : Option Literal → ℕ → ℕ → Bool
id_below (some (integer id)) n k = ltb (partition_of id n) k
id_below _ n k = false

abbrev owned_below : ℕ → ℕ → ℕ → Row → Bool
owned_below col n k row = id_below (get_elem? row col) n k

below-step :
    (w : Row → ℕ) (col n k : ℕ) (rows : List Row)
    → total w (keep_if (owned_below col n (suc k)) rows)
      ≡ total w (keep_if (owned_below col n k) rows) + total w (keep_if (owns col k n) rows)
unfolding owns
below-step w col n k [] = refl
below-step w col n k (row ∷ rows) = ground (arith, below-step w col n k rows)

below-zero :
    (w : Row → ℕ) (col n : ℕ) (rows : List Row) → total w (keep_if (owned_below col n 0) rows) ≡ 0
below-zero w col n [] = refl
below-zero w col n (row ∷ rows) = ground (arith, below-zero w col n rows)

partitions-total :
    (w : Row → ℕ) (t : Table) (col n k : ℕ)
    → find_id t.column_names 0 ≡ some col
    → total w (partitions t n k) ≡ total w (keep_if (owned_below col n k) t.rows)
unfolding filter_table_to_partition
partitions-total w t col n zero h = sym (below-zero w col n t.rows)
partitions-total w t col n (suc k) h =
    let part = (filter_table_to_partition t k n).rows in
    let same : total w part ≡ total w (keep_if (owns col k n) t.rows) = rw h in
    omega (
      arith,
      total-append w (partitions t n k) part,
      partitions-total w t col n k h,
      below-step w col n k t.rows,
      same,
    )

all-below :
    (w : Row → ℕ) (col n : ℕ) (rows : List Row)
    → 0 < n
    → total w (keep_if (owned_below col n n) rows) ≡ total w (keep_if (has_id col) rows)
all-below w col n [] h = refl
all-below w col n (row ∷ rows) h = step (get_elem? row col) refl (all-below w col n rows h)
  where
    step :
        (o : Option Literal)
        → get_elem? row col ≡ o
        → total w (keep_if (owned_below col n n) rows) ≡ total w (keep_if (has_id col) rows)
        → total w (keep_if (owned_below col n n) (row ∷ rows))
          ≡ total w (keep_if (has_id col) (row ∷ rows))
    step none e ih = rw e ih
    step (some (integer id)) e ih = rw e (ground (arith, partition_of-lt id n h))
    step (some (Literal.floating x)) e ih = rw e ih
    step (some (Literal.str x)) e ih = rw e ih
    step (some (Literal.boolean x)) e ih = rw e ih
    step (some Literal.null) e ih = rw e ih

-- For a table with an "id" column, the partitions of all the workers together hold exactly the rows
-- whose id is an integer, each as often as the table does.
pub partitions-SameItems :
    (t : Table) (col n : ℕ)
    → find_id t.column_names 0 ≡ some col
    → 0 < n
    → SameItems (partitions t n n) (keep_if (has_id col) t.rows)
partitions-SameItems t col n h k = λ w. partitions-total w t col n n h ∙ all-below w col n t.rows k
