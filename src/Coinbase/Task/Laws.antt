-- ===== src/Coinbase/Task/Laws.antt =====
-- coinbase/: the runs of a sequence of tasks are the runs of its parts.
use cryptosweep.Base.{◌≡◌, refl, ap, ◌∙◌, List, [], ◌∷◌, ◌++◌}
use cryptosweep.Types.Error.{AppError, Result, ok, err}
use cryptosweep.Coinbase.Task.{
  current_timestamp, new_v4, send_request, utc_now, Task, done, step, ◌>>=◌, Event, Runs, exchanges,
}

module _ {Json : Type 0} where
  pub exchanges-append : (s t : List (Event Json)) → exchanges (s ++ t) ≡ exchanges s ++ exchanges t
  exchanges-append [] t = refl
  exchanges-append ((current_timestamp, _) ∷ s) t = exchanges-append s t
  exchanges-append ((new_v4, _) ∷ s) t = exchanges-append s t
  exchanges-append ((send_request q, a) ∷ s) t = ap (λ x. (q, a) ∷ x) (exchanges-append s t)
  exchanges-append ((utc_now, _) ∷ s) t = exchanges-append s t

module _ {Json A B : Type 0} where
  -- A run of `m >>= f` is a run of `m` that fails, or one that succeeds and a run of what follows.
  pub data Sequence (m : Task Json A) (f : A → Task Json B) (t : List (Event Json))
      (r : Result B AppError) : Type 0 where
    stopped : (e : AppError) → Runs m t (err e) → r ≡ err e → Sequence m f t r
    continued :
        (a : A) (first rest : List (Event Json))
        → Runs m first (ok a)
        → Runs (f a) rest r
        → t ≡ first ++ rest
        → Sequence m f t r

  pub sequence :
      (m : Task Json A) (f : A → Task Json B) (t : List (Event Json)) (r : Result B AppError)
      → Runs (m >>= f) t r
      → Sequence m f t r
  sequence (done (ok a)) f t r runs = continued a [] t (refl, refl) runs refl
  sequence (done (err e)) f t r (et, er) = stopped e (et, refl) er
  sequence (step k next) f t r (a, rest, e, runs) = go (sequence (next a) f rest r runs)
    where
      go : Sequence (next a) f rest r → Sequence (step k next) f t r
      go (stopped x run er) = stopped x (a, rest, e, run) er
      go (continued b first later run run' et) =
          continued b ((k, a) ∷ first) later (a, first, refl, run) run'
            (e ∙ ap (λ x. (k, a) ∷ x) et)
