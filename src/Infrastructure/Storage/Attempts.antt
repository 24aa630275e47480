-- ===== src/Infrastructure/Storage/Attempts.antt =====
-- The removals that the loop of `_clear_prefix` makes, one for each name.
use dms_core.Prelude.{
  ℕ, suc, ◌+◌, Text, List, [], ◌∷◌, ◌++◌, ◌≡◌, ◌⊎◌, inl, inr, refl, arith, length, length-append,
}
use dms_core.Domain.Errors.{Exc}
use dms_core.Domain.Exec.{Outcome, ok, raised, Exec, pure, ◌>>◌}
use dms_core.Domain.Exec.Rules.{bind-ensures, catch-ensures}
use dms_core.Infrastructure.Storage.{Removal, remove_one, remove_each}
use dms_core.Infrastructure.Storage.Client.{MinioClient}

module _ {B : Type 0} (client : MinioClient B) where
  -- `remove_object` is called for each name in order, from `b` to `s`, whichever call raises;
  -- `n` calls return and `f` calls raise.
  abbrev pub Attempts : List Text → B → ℕ → ℕ → B → Type 0
  Attempts [] b n f s = (n ≡ 0) × (f ≡ 0) × (s ≡ b)
  Attempts (key ∷ names) b n f s =
      (t : B) × (((client.remove_object key b ≡ (ok tt, t))
          × ((k : ℕ) × (n ≡ suc k) × Attempts names t k f s))
        ⊎ ((e : Exc) × (client.remove_object key b ≡ (raised e, t))
            × ((k : ℕ) × (f ≡ suc k) × Attempts names t n k s)))

  abbrev TurnTo : Text → Removal → B → Outcome Removal × B → Type 0
  TurnTo key r b (ok q, t) =
      ((client.remove_object key b ≡ (ok tt, t))
        × (q.removed ≡ suc r.removed)
        × (length q.failures ≡ length r.failures))
      ⊎ ((e : Exc) × (client.remove_object key b ≡ (raised e, t))
          × (q.removed ≡ r.removed)
          × (length q.failures ≡ suc (length r.failures)))
  TurnTo key r b (raised e, t) = ⊥

  abbrev TurnOrFails : Text → Removal → B → Outcome Removal × B → Type 0
  TurnOrFails key r b (ok q, t) = TurnTo key r b (ok q, t)
  TurnOrFails key r b (raised e, t) = client.remove_object key b ≡ (raised e, t)

  abbrev count_one : Removal → Exec B Removal
  count_one r = pure (record r { removed = suc r.removed })

  remove_and_count :
      (key : Text) (r : Removal) (b : B)
      → TurnOrFails key r b ((client.remove_object key >> count_one r) b)
  remove_and_count key r b =
      bind-ensures (λ x. client.remove_object key b ≡ x) (TurnOrFails key r b)
        (client.remove_object key) (λ _. count_one r) b refl (λ _ s h. inl (h, refl, refl))
        (λ e s h. h)

  remove_one-TurnTo :
      (key : Text) (r : Removal) (b : B) → TurnTo key r b (remove_one client key r b)
  unfolding remove_one
  remove_one-TurnTo key r b =
      catch-ensures (TurnOrFails key r b) (TurnTo key r b) (client.remove_object key >> count_one r)
        (λ exc. pure (record r { failures = r.failures ++ exc ∷ [] })) b (remove_and_count key r b)
        (λ q t h. h) (λ e t h. inr (e, h, refl, omega (arith, length-append r.failures (e ∷ []))))

  -- The loop attempts every name and counts what returned and what raised.
  abbrev pub AttemptsTo : List Text → Removal → B → Outcome Removal × B → Type 0
  AttemptsTo names r b (ok q, s) =
      (n : ℕ) × (f : ℕ) × Attempts names b n f s
      × (q.removed ≡ n + r.removed)
      × (length q.failures ≡ f + length r.failures)
  AttemptsTo names r b (raised e, s) = ⊥

  next_attempt :
      (key : Text) (names : List Text) (r q : Removal) (b t : B) (x : Outcome Removal × B)
      → TurnTo key r b (ok q, t)
      → AttemptsTo names q t x
      → AttemptsTo (key ∷ names) r b x
  next_attempt key names r q b t (raised e, s) h g = absurd g
  next_attempt key names r q b t (ok o, s) (inl (h, c, l)) (n, f, g, d, m) =
      (suc n, f, (t, inl (h, (n, refl, g))), omega arith, omega arith)
  next_attempt key names r q b t (ok o, s) (inr (e, h, c, l)) (n, f, g, d, m) =
      (n, suc f, (t, inr (e, h, (f, refl, g))), omega arith, omega arith)

  pub remove_each-AttemptsTo :
      (names : List Text) (r : Removal) (b : B)
      → AttemptsTo names r b (remove_each client names r b)
  unfolding remove_each
  remove_each-AttemptsTo [] r b = (0, 0, (refl, refl, refl), omega arith, omega arith)
  remove_each-AttemptsTo (key ∷ names) r b =
      bind-ensures (TurnTo key r b) (AttemptsTo (key ∷ names) r b) (remove_one client key r)
        (remove_each client names) b (remove_one-TurnTo key r b)
        (λ q t h. next_attempt key names r q b t _ h (remove_each-AttemptsTo names q t))
        (λ e t h. absurd h)
