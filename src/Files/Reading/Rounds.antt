-- ===== src/Files/Reading/Rounds.antt =====
-- The rounds of the loop in `fetch_blocks` of api_service/services/files.py, with no fuel.
use secure_file_system.Base.{
  ℕ, zero, suc, ◌-◌, ◌≤◌, ◌<◌, ◌≡◌, refl, inl, inr, Bool, true, false, List, [], ◌∷◌, arith, ltb,
  leb, Bool-cases, Result, ok, err, Result-cases,
}
use secure_file_system.Base.Dict.{Dict}
use secure_file_system.Base.Lists.{length, take, drop, length-drop}
use secure_file_system.Base.Text.{Text, Bytes}
use secure_file_system.Files.{FilesError}
use secure_file_system.Files.Reading.{Placed, add_blocks, get_placed, fetch_more, fetch_blocks}
use secure_file_system.Network.{Network, World, gather}
use secure_file_system.NodeClient.{NodeFailure}
use secure_file_system.Python.Hashlib.{Hashlib}

module _ (net : Network) (h : Hashlib) (token : Text) (k : ℕ) where
  -- `len(collected) < k and remaining`
  abbrev pub goes_on : List Placed → Dict ℕ Bytes → Bool
  goes_on [] collected = false
  goes_on (p ∷ ps) collected = ltb (length collected) k

  -- The reads of one round, and the world after them.
  abbrev pub round :
      List Placed → Dict ℕ Bytes → World net → List (Result NodeFailure Bytes) × World net
  round remaining collected w =
      gather (get_placed net h token) (take (k - length collected) remaining) w

  abbrev pub after_round : List Placed → Dict ℕ Bytes → World net → Result FilesError (Dict ℕ Bytes)
  after_round remaining collected w =
      add_blocks net h token (take (k - length collected) remaining) (round remaining collected w).0
        collected

  -- The `while` loop: how many rounds it makes, and what it ends with.
  pub data Rounds
      : ℕ
        → List Placed
        → Dict ℕ Bytes
        → World net
        → Result FilesError (Dict ℕ Bytes)
        → World net
        → Type 0 where
    stops :
        {remaining : List Placed} {collected : Dict ℕ Bytes} {w : World net}
        → goes_on remaining collected ≡ false
        → Rounds zero remaining collected w (ok collected) w
    fails :
        {remaining : List Placed} {collected : Dict ℕ Bytes} {w : World net} {e : FilesError}
        → goes_on remaining collected ≡ true
        → after_round remaining collected w ≡ err e
        → Rounds (suc zero) remaining collected w (err e) (round remaining collected w).1
    continues :
        {n : ℕ} {remaining : List Placed} {collected collected' : Dict ℕ Bytes} {w v : World net}
        {r : Result FilesError (Dict ℕ Bytes)}
        → goes_on remaining collected ≡ true
        → after_round remaining collected w ≡ ok collected'
        → Rounds n
            (drop (k - length collected) remaining)
            collected'
            (round remaining collected w).1
            r
            v
        → Rounds (suc n) remaining collected w r v

  -- The loop has ended with that result after a number of rounds.
  abbrev pub EndsWithin :
      ℕ
      → List Placed
      → Dict ℕ Bytes
      → World net
      → Result FilesError (Dict ℕ Bytes) × World net
      → Type 0
  EndsWithin bound remaining collected w (r, v) =
      (n : ℕ) × (n ≤ bound) × Rounds n remaining collected w r v

  fetch_more-EndsWithin :
      (fuel : ℕ) (remaining : List Placed) (collected : Dict ℕ Bytes) (w : World net)
      → length remaining ≤ fuel
      → EndsWithin
          (length remaining)
          remaining
          collected
          w
          (fetch_more net h token fuel k remaining collected w)
  unfolding fetch_more
  fetch_more-EndsWithin zero [] collected w enough = (0, omega arith, stops refl)
  fetch_more-EndsWithin zero (p ∷ ps) collected w enough = absurd (omega arith)
  fetch_more-EndsWithin (suc fuel) [] collected w enough = (0, omega arith, stops refl)
  fetch_more-EndsWithin (suc fuel) (p ∷ ps) collected w enough =
      elim (Bool-cases (leb k (length collected))) [
        | inl e ↦ rw e (0, omega arith, stops (ground arith))
        | inr e ↦
            let more : goes_on (p ∷ ps) collected ≡ true = ground arith in
            elim (Result-cases (after_round (p ∷ ps) collected w)) [
              | inr (x, f) ↦ rw (e, f) (1, omega arith, fails more f)
              | inl (collected', f) ↦
                  let rest = drop (k - length collected) (p ∷ ps) in
                  let fewer : length rest < length (p ∷ ps) =
                    ground (arith, length-drop (k - length collected) (p ∷ ps)) in
                  let (n, small, made) =
                    fetch_more-EndsWithin fuel rest collected' (round (p ∷ ps) collected w).1
                      (omega (arith, enough)) in
                  rw (e, f) (suc n, omega arith, continues more f made)
            ]
      ]

  -- The loop ends, whatever the nodes answer: `fetch_blocks` returns what the `while` loop of the
  -- source, which knows no fuel, comes to after at most as many rounds as there are candidates.
  pub fetch_blocks-EndsWithin :
      (candidates : List Placed) (w : World net)
      → EndsWithin (length candidates) candidates [] w (fetch_blocks net h token candidates k w)
  unfolding fetch_blocks
  fetch_blocks-EndsWithin candidates w =
      fetch_more-EndsWithin (length candidates) candidates [] w (omega arith)
