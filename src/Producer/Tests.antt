-- ===== src/Producer/Tests.antt =====
-- Runs of the writer, and its theorems at concrete inputs.
use crypto_cdc_pipeline.Base.{
  ℕ, ◌≡◌, refl, true, false, List, [], ◌∷◌, length, arith, leb, if◌then◌else◌,
}
use crypto_cdc_pipeline.Base.Int.{pos, ◌+ℤ◌, ◌-ℤ◌}
use crypto_cdc_pipeline.Producer.Writer.{
  Env, committed, failed, Stats, Writer, flush, flush_pass, flush_loop, pop_batch, settle,
  reconnect, connect, warn_depth, warn_after, close, closed,
}
use crypto_cdc_pipeline.Producer.Writer.Conserve.{Conserves, flush-Conserves}
use crypto_cdc_pipeline.Producer.Writer.Counts.{IsCounted}
use crypto_cdc_pipeline.Producer.Writer.Close.{close_drains}

abbrev no_stats : Stats
no_stats = record {
  received = 0;
  inserted = 0;
  duplicates = pos 0;
  errors = 0;
  last_report = 0;
  last_buffer_warn = 0;
  buffer_depth = 0;
}

abbrev queued : List ℕ → Writer ℕ
queued rows = record { buffer = rows; stats = no_stats; log = []; calls = 0 }

-- The first batch is taken, with one duplicate in it; then MySQL is gone for good.
abbrev dying : Env ℕ
dying = record {
  batch_size = 2;
  max_batches = 5;
  warn_rows = 1;
  db = λ n rows. if leb n 0 then committed 1 else failed true false (λ k. false);
}

abbrev refusing : Env ℕ
refusing = record dying { db = λ n rows. failed true true (λ k. true) }

abbrev taking : Env ℕ
taking = record dying { db = λ n rows. committed (length rows) }

-- The third and the fourth row are lost.
flush-dying : (flush dying 100 101 (queued (1 ∷ 2 ∷ 3 ∷ 4 ∷ 5 ∷ []))).1.buffer ≡ 5 ∷ []
unfolding flush flush_loop flush_pass pop_batch settle reconnect connect warn_after warn_depth ◌+ℤ◌
    ◌-ℤ◌
flush-dying = refl

flush-refusing : (flush refusing 100 101 (queued (1 ∷ 2 ∷ 3 ∷ []))).1.stats.last_buffer_warn ≡ 101
unfolding flush flush_loop flush_pass pop_batch settle reconnect connect warn_after warn_depth ◌+ℤ◌
    ◌-ℤ◌
flush-refusing = refl

flush-Conserves_example :
    Conserves dying
      (queued (1 ∷ 2 ∷ 3 ∷ 4 ∷ 5 ∷ []))
      (flush dying 100 101 (queued (1 ∷ 2 ∷ 3 ∷ 4 ∷ 5 ∷ [])))
flush-Conserves_example = flush-Conserves dying 100 101 (queued (1 ∷ 2 ∷ 3 ∷ 4 ∷ 5 ∷ []))

fresh-IsCounted : (rows : List ℕ) → IsCounted (queued rows)
unfolding ◌+ℤ◌
fresh-IsCounted rows = refl

close_drains_example :
    (w : Writer ℕ) × (close taking 9 (λ k. (k, k)) (queued (1 ∷ 2 ∷ 3 ∷ [])) ≡ closed w)
    × (w.buffer ≡ [])
    × (w.log ≡ 1 ∷ 2 ∷ 3 ∷ [])
close_drains_example =
    close_drains taking (λ n rows. (length rows, refl)) (omega arith) (omega arith) 9 (λ k. (k, k))
      (queued (1 ∷ 2 ∷ 3 ∷ [])) (omega arith)
