-- ===== src/Job/Files.antt =====
-- The result files of a benchmark run: ci-bench-runner/src/job/mod.rs. A file is the list of its
-- lines, each `none` where it cannot be read; a file that cannot be opened is `none`.
pub mod Walltimes
use rustls_bench_app.Base.{
  ℕ, ◌/◌, ◌^◌, ◌≡◌, Option, none, some, List, [], ◌∷◌, ltb, length, get_elem?,
}
use rustls_bench_app.Base.Text.{Text, trim, split, parse_uint}
use rustls_bench_app.Base.F64.{F64, Arith}
use rustls_bench_app.Base.Map.{Map, insert}
use rustls_bench_app.Base.Sort.{sort}
use rustls_bench_app.Base.Result.{
  Result, ok, err, panic, ◌>>=◌, ok_or, unwrap, file_not_found, wrong_csv, invalid_number,
  no_measurements, wrong_measurement_count, io_failed,
}

abbrev pub File : Type 0
File = Option (List (Option Text))

pub record MemoryDetails : Type 0 where
  pub heap_total_bytes : ℕ
  pub heap_total_blocks : ℕ
  pub heap_peak_bytes : ℕ
  pub heap_peak_blocks : ℕ

unfoldable pub comparison_basis : MemoryDetails → ℕ
comparison_basis d = d.heap_total_bytes

-- The loop over the lines, with a reader for the parts of one line.
unfoldable pub read_lines {ℓ} :
    {V : Type ℓ} → (List Text → Result (Text × V)) → List (Option Text) → Map V → Result (Map V)
read_lines row [] results = ok results
read_lines row (none ∷ lines) results = err io_failed
read_lines row (some line ∷ lines) results = do
  (name, value) ← row (split b',' (trim line))
  read_lines row lines (insert name value results)

-- A third part is an error too, after the number has been read.
unfoldable pub icount_row : Arith → List Text → Result (Text × F64)
icount_row fp [] = err wrong_csv
icount_row fp (name ∷ []) = err wrong_csv
icount_row fp (name ∷ count ∷ []) = do
  value ← ok_or (fp.parse count) invalid_number
  ok (name, value)
icount_row fp (name ∷ count ∷ extra ∷ rest) = do
  value ← ok_or (fp.parse count) invalid_number
  err wrong_csv

unfoldable pub read_icount_results : Arith → File → Result (Map F64)
read_icount_results fp file = do
  lines ← ok_or file file_not_found
  read_lines (icount_row fp) lines []

-- `collect` of the parsed numbers: the first that does not parse is the error.
unfoldable pub parse_all : (bound : ℕ) → List Text → Result (List ℕ)
parse_all bound [] = ok []
parse_all bound (s ∷ rest) = do
  n ← ok_or (parse_uint bound s) invalid_number
  ns ← parse_all bound rest
  ok (n ∷ ns)

-- `walltimes[walltimes.len() / 2]` of the sorted walltimes.
unfoldable pub median : List ℕ → Result ℕ
median walltimes = let sorted = sort ltb walltimes in unwrap (get_elem? sorted (length sorted / 2))

unfoldable pub official_walltime : List ℕ → Result ℕ
official_walltime [] = err no_measurements
official_walltime (w ∷ ws) = median (w ∷ ws)

unfoldable pub walltime_row : Arith → List Text → Result (Text × F64)
walltime_row fp [] = err wrong_csv
walltime_row fp (scenario ∷ parts) = do
  walltimes ← parse_all (2 ^ 128) parts
  walltime ← official_walltime walltimes
  ok (scenario, fp.of_uint walltime)

unfoldable pub read_walltime_results : Arith → File → Result (Map F64)
read_walltime_results fp file = do
  lines ← ok_or file file_not_found
  read_lines (walltime_row fp) lines []

-- The slice pattern of four numbers.
unfoldable pub details_of : List ℕ → Result MemoryDetails
details_of (total_bytes ∷ total_blocks ∷ peak_bytes ∷ peak_blocks ∷ []) = ok (record {
  heap_total_bytes = total_bytes;
  heap_total_blocks = total_blocks;
  heap_peak_bytes = peak_bytes;
  heap_peak_blocks = peak_blocks;
})
details_of _ = err wrong_measurement_count

unfoldable pub memory_row : List Text → Result (Text × MemoryDetails)
memory_row [] = err wrong_csv
memory_row (scenario ∷ parts) = do
  counts ← parse_all (2 ^ 64) parts
  details ← details_of counts
  ok (scenario, details)

-- A missing file is no error here.
unfoldable pub maybe_read_memory_results : File → Result (Map MemoryDetails)
maybe_read_memory_results none = ok []
maybe_read_memory_results (some lines) = read_lines memory_row lines []
