-- ===== src/Tests/Config.antt =====
-- The configuration of src/config.rs with a schedule as it may be written.
use chronicle_worker.Prelude.{◌≡◌, refl, String, true, none, some, List, [], ◌∷◌, map, arith}
use chronicle_worker.Error.{WorkerError, ok, err}
use chronicle_worker.Strings.{codes, is_whitespace}
use chronicle_worker.Strings.Csv.{join}
use chronicle_worker.Strings.Digits.{numeral}
use chronicle_worker.Config.{Config, default_config, resolved_shared_secret, retry_backoffs}
use chronicle_worker.Config.Delays.{Piece, text_of, retry_backoffs-written}

-- Floats and socket addresses are texts here.
abbrev unset : Config String String
unset = default_config (λ x. x) (λ a. a)

abbrev pub config : String → Config String String
config delays = record unset {
  shared_secret = some "secret";
  admin_enabled = true;
  retry_backoff_ms = delays;
}

-- The defaults: a schedule of 30 seconds, 2 minutes and 10 minutes, and no secret.
defaults_read : retry_backoffs unset ≡ ok (30000 ∷ 120000 ∷ 600000 ∷ [])
unfolding retry_backoffs is_whitespace
defaults_read = refl

secret_missing :
    resolved_shared_secret unset
    ≡ err (WorkerError.config "SHARED_SECRET (or DATA_API_SHARED_SECRET) must be set")
unfolding resolved_shared_secret
secret_missing = refl

abbrev pub usual : Config String String
usual = config "30000, 120000,"

abbrev first_piece : Piece
first_piece = record { before = []; delay = some 30000; after = [] }

abbrev other_pieces : List Piece
other_pieces =
    record { before = 32 ∷ []; delay = some 120000; after = [] }
    ∷ record { before = []; delay = none; after = [] }
    ∷ []

usual-written : codes usual.retry_backoff_ms ≡ join 44 (map text_of (first_piece ∷ other_pieces))
unfolding numeral
usual-written = refl

retry_backoffs-written_example : retry_backoffs usual ≡ ok (30000 ∷ 120000 ∷ [])
unfolding is_whitespace
retry_backoffs-written_example =
    retry_backoffs-written usual first_piece other_pieces
      ((tt, omega arith, tt), (((refl, tt), omega arith, tt), ((tt, tt, tt), tt))) usual-written

unit_refused :
    retry_backoffs (config "30s")
    ≡ err (WorkerError.config "RETRY_BACKOFF_MS: invalid digit found in string")
unfolding retry_backoffs is_whitespace
unit_refused = refl

comma-read : retry_backoffs (config ",") ≡ ok []
unfolding retry_backoffs is_whitespace
comma-read = refl
