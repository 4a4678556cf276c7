-- ===== src/Physical/Formulas.antt =====
-- physical/cost.hpp and cost.cpp: the cost formulas. A double is its bit pattern; what the formulas
-- compute with doubles is a parameter.
use sql_query_optimizer.Prelude.{ℕ, Bool, ltb, if◌then◌else◌}
use sql_query_optimizer.Ast.{Double}
use sql_query_optimizer.Physical.{Cost}

-- Arithmetic, the order, conversions and <cmath> on doubles.
pub record CostMath : Type 0 where
  pub add : Double → Double → Double
  pub sub : Double → Double → Double
  pub mul : Double → Double → Double
  pub div : Double → Double → Double
  pub less : Double → Double → Bool
  pub less_equal : Double → Double → Bool
  pub of_size : ℕ → Double
  pub to_size : Double → ℕ
  pub ceil : Double → Double
  pub round : Double → Double
  pub log2 : Double → Double

-- The constants, as IEEE 754 bit patterns: 0.01, 1.0, 4.0, 0.005, 0.02, 0.001, 100000.0, 0.05.
abbrev pub cpu_tuple_cost : Double
cpu_tuple_cost = 4_576_918_229_304_087_675

abbrev pub seq_page_cost : Double
seq_page_cost = 4_607_182_418_800_017_408

abbrev pub random_page_cost : Double
random_page_cost = 4_616_189_618_054_758_400

abbrev pub index_tuple_cost : Double
index_tuple_cost = 4_572_414_629_676_717_179

abbrev pub hash_build_cost : Double
hash_build_cost = 4_581_421_828_931_458_171

abbrev pub memory_per_row_cost : Double
memory_per_row_cost = 4_562_254_508_917_369_340

abbrev pub memory_budget_rows : Double
memory_budget_rows = 4_681_608_360_884_174_848

abbrev pub spill_io_cost_per_row : Double
spill_io_cost_per_row = 4_587_366_580_439_587_226

abbrev pub page_size_bytes : ℕ
page_size_bytes = 8192

-- 0.01, 0.1 and 1.0.
abbrev hundredth : Double
hundredth = 4_576_918_229_304_087_675

abbrev tenth : Double
tenth = 4_591_870_180_066_957_722

abbrev pub one : Double
one = 4_607_182_418_800_017_408

abbrev min_size : ℕ → ℕ → ℕ
min_size a b = if ltb b a then b else a

abbrev max_size : ℕ → ℕ → ℕ
max_size a b = if ltb a b then b else a

module _ (m : CostMath) where
  unfoldable pub total : Cost → Double
  total c = m.add (m.add c.cpu c.io) c.memory

  unfoldable pub add_cost : Cost → Cost → Cost
  add_cost a b = record {
    cpu = m.add a.cpu b.cpu;
    io = m.add a.io b.io;
    memory = m.add a.memory b.memory;
  }

  -- `std::max`
  unfoldable pub max_double : Double → Double → Double
  max_double a b = if m.less a b then b else a

  unfoldable pub rows_to_size : Double → ℕ
  unfolding max_double
  rows_to_size rows = m.to_size (max_double one (m.round rows))

  unfoldable pub pages_for : ℕ → ℕ → Double
  unfolding max_double
  pages_for row_count avg_row_bytes =
      let bytes = m.mul (m.of_size row_count) (m.of_size avg_row_bytes) in
      max_double one (m.ceil (m.div bytes (m.of_size page_size_bytes)))

  unfoldable pub spill_penalty : ℕ → Double
  spill_penalty rows =
      let r = m.of_size rows in
      if m.less_equal r memory_budget_rows
      then 0
      else m.mul (m.sub r memory_budget_rows) spill_io_cost_per_row

  unfoldable pub seq_scan_cost : ℕ → Double → Cost
  unfolding max_double
  seq_scan_cost row_count page_count = record {
    cpu = m.mul (m.of_size row_count) cpu_tuple_cost;
    io = m.mul (max_double one page_count) seq_page_cost;
    memory = 0;
  }

  unfoldable pub index_scan_cost : ℕ → Cost
  index_scan_cost matched_rows = record {
    cpu = m.mul (m.of_size matched_rows) (m.add cpu_tuple_cost index_tuple_cost);
    io = m.mul (m.of_size matched_rows) random_page_cost;
    memory = 0;
  }

  unfoldable pub filter_cost : ℕ → Cost
  filter_cost input_rows = record {
    cpu = m.mul (m.of_size input_rows) cpu_tuple_cost;
    io = 0;
    memory = 0;
  }

  unfoldable pub nested_loop_join_cost : ℕ → ℕ → Cost
  nested_loop_join_cost left_rows right_rows = record {
    cpu =
        m.mul (m.mul (m.mul (m.of_size left_rows) (m.of_size right_rows)) cpu_tuple_cost) hundredth;
    io = 0;
    memory = 0;
  }

  unfoldable pub hash_join_cost : ℕ → ℕ → Cost
  unfolding spill_penalty
  hash_join_cost left_rows right_rows =
      let build_rows = min_size left_rows right_rows in
      let probe_rows = max_size left_rows right_rows in
      record {
        cpu =
            m.add (m.mul (m.of_size build_rows) hash_build_cost)
              (m.mul (m.of_size probe_rows) cpu_tuple_cost);
        io = spill_penalty build_rows;
        memory = m.mul (m.of_size build_rows) memory_per_row_cost;
      }

  unfoldable pub index_nested_loop_join_cost : ℕ → ℕ → Cost
  index_nested_loop_join_cost outer_rows output_rows = record {
    cpu =
        m.add (m.mul (m.of_size outer_rows) (m.add cpu_tuple_cost index_tuple_cost))
          (m.mul (m.of_size output_rows) cpu_tuple_cost);
    io = m.mul (m.of_size outer_rows) random_page_cost;
    memory = 0;
  }

  unfoldable pub hash_aggregate_cost : ℕ → ℕ → Cost
  unfolding spill_penalty
  hash_aggregate_cost input_rows estimated_groups = record {
    cpu = m.mul (m.of_size input_rows) hash_build_cost;
    io = spill_penalty estimated_groups;
    memory = m.mul (m.of_size estimated_groups) memory_per_row_cost;
  }

  unfoldable pub sort_cost : ℕ → Cost
  unfolding spill_penalty
  sort_cost input_rows =
      let n = m.of_size (max_size input_rows 1) in
      record {
        cpu = m.mul (m.mul n (m.log2 n)) cpu_tuple_cost;
        io = spill_penalty input_rows;
        memory = m.mul n memory_per_row_cost;
      }

  unfoldable pub project_cost : ℕ → Cost
  project_cost input_rows = record {
    cpu = m.mul (m.mul (m.of_size input_rows) cpu_tuple_cost) tenth;
    io = 0;
    memory = 0;
  }

  unfoldable pub limit_cost : ℕ → Cost
  limit_cost input_rows = record {
    cpu = m.mul (m.mul (m.of_size input_rows) cpu_tuple_cost) hundredth;
    io = 0;
    memory = 0;
  }
