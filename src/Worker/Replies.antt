-- ===== src/Worker/Replies.antt =====
-- What the worker process writes for the batches that it is sent.
use jude.Prelude.{ℕ, ◌≡◌, ◌<◌, Bool, Option, some, List, [], ◌∷◌, ◌++◌, length, ◌>>=◌}
use jude.Worker.{ctrl, write_frame}
use jude.Worker.Frames.{Reads}
use jude.Worker.Loop.{Outcome, ok, Arrow, Returned, CallMode, Exit, serve}
use jude.Worker.Calls.{Served}

-- The frames of the payloads, one after the other.
abbrev pub send : List (List ℕ) → Option (List ℕ)
send [] = some []
send (p ∷ ps) = do bytes ← write_frame p; rest ← send ps; some (bytes ++ rest)

module _ {Table Batch Columns Value S : Type 0} (arrow : Arrow Table Batch Columns Value)
    (on_table : S → Table → S × Outcome (Returned Table Batch Columns))
    (on_value : S → Value → S × Outcome Value) where
  -- The payloads are the texts of the tables, and no longer than a frame allows.
  abbrev pub Decodes : List (List ℕ) → List Table → Type 0
  Decodes [] [] = Unit
  Decodes [] (t ∷ ts) = ⊥
  Decodes (p ∷ ps) [] = ⊥
  Decodes (p ∷ ps) (t ∷ ts) = (arrow.from_ipc p ≡ ok t) × (length p < ctrl) × Decodes ps ts

  module _ (got : List ℕ → ℕ → ℕ) (reads : Reads got) (is_shutdown : List ℕ → Option Bool) where
    -- What the loop does with the batches that are left, after it has written `out`.
    abbrev Serves : ℕ → CallMode → S → List Table → List ℕ → List ℕ → Type 0
    Serves fuel mode s ts stream out =
        (exit : Exit) × (written : List ℕ) × Served arrow on_table on_value mode s ts exit written
        × (serve arrow on_table on_value got is_shutdown fuel mode s stream out
            ≡ some (exit, out ++ written))
