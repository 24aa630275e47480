-- ===== src/Infrastructure/Storage/Removing.antt =====
-- The turns of the loop of `_clear_prefix`: what it leaves of the names that it was given.
use dms_core.Prelude.{
  suc, ◌+◌, ◌≤◌, Text, text_eq, text_eq_iff, true, false, none, List, [], ◌∷◌, ◌++◌, ◌≡◌, refl, ap,
  ◌∙◌, arith, any, length, length-append, remove, remove-OnlyAt, Bool-cases, inl, inr,
}
use dms_core.Domain.Exec.{Outcome, ok, raised, Exec, pure, ◌>>◌}
use dms_core.Domain.Exec.Rules.{bind-ensures, catch-ensures}
use dms_core.Infrastructure.Storage.{Removal, remove_one, remove_each}
use dms_core.Infrastructure.Storage.Client.{
  MinioClient, Objects, ClientLaws, ClientRemoves, Untouched,
}

module _ {B : Type 0} (client : MinioClient B) (laws : ClientLaws client) where
  -- One turn: the object is gone and counted, or the failure is noted; the turn itself returns.
  abbrev RemovesOne : Text → Removal → B → Outcome Removal × B → Type 0
  RemovesOne key r b (ok r', s) =
      Untouched laws.objects (laws.objects b) key s
      × (r'.removed + length r'.failures ≡ suc (r.removed + length r.failures))
      × (length r.failures ≤ length r'.failures)
      × (length r'.failures ≡ length r.failures → laws.objects s key ≡ none)
  RemovesOne key r b (raised e, s) = ⊥

  abbrev count_one : Removal → Exec B Removal
  count_one r = pure (record r { removed = suc r.removed })

  abbrev RemovesOrFails : Text → Removal → B → Outcome Removal × B → Type 0
  RemovesOrFails key r b (ok r', s) = RemovesOne key r b (ok r', s)
  RemovesOrFails key r b (raised e, s) = Untouched laws.objects (laws.objects b) key s

  remove_at : (o : Objects) (key : Text) → remove o key key ≡ none
  remove_at o key = ground (arith, text_eq_iff key key)

  remove_and_count :
      (key : Text) (r : Removal) (b : B)
      → RemovesOrFails key r b ((client.remove_object key >> count_one r) b)
  remove_and_count key r b =
      bind-ensures (ClientRemoves laws.objects (laws.objects b) key) (RemovesOrFails key r b)
        (client.remove_object key) (λ _. count_one r) b (laws.removes key b)
        (λ _ s h. (
          (λ j n. ap (λ o. o j) h ∙ remove-OnlyAt (laws.objects b) key j n),
          omega arith,
          omega arith,
          (λ _. ap (λ o. o key) h ∙ remove_at (laws.objects b) key),
        ))
        (λ e s h. h)

  remove_one-RemovesOne :
      (key : Text) (r : Removal) (b : B) → RemovesOne key r b (remove_one client key r b)
  unfolding remove_one
  remove_one-RemovesOne key r b =
      catch-ensures (RemovesOrFails key r b) (RemovesOne key r b)
        (client.remove_object key >> count_one r)
        (λ exc. pure (record r { failures = r.failures ++ exc ∷ [] })) b (remove_and_count key r b)
        (λ r' s h. h)
        (λ e s h. (
          h,
          omega (arith, length-append r.failures (e ∷ [])),
          omega (arith, length-append r.failures (e ∷ [])),
          (λ g. absurd (omega (arith, length-append r.failures (e ∷ [])))),
        ))

  -- The loop returns after a turn for each name; where no turn failed, all of them are gone.
  abbrev pub RemovesEach : List Text → Removal → B → Outcome Removal × B → Type 0
  RemovesEach names r b (ok r', s) =
      ((j : Text) → any (text_eq j) names ≡ false → laws.objects s j ≡ laws.objects b j)
      × (r'.removed + length r'.failures ≡ length names + (r.removed + length r.failures))
      × (length r.failures ≤ length r'.failures)
      × (length r'.failures ≡ length r.failures
          → (j : Text) → any (text_eq j) names ≡ true
          → laws.objects s j ≡ none)
  RemovesEach names r b (raised e, s) = ⊥

  next_turn :
      (key : Text) (names : List Text) (r q : Removal) (b t : B) (x : Outcome Removal × B)
      → RemovesOne key r b (ok q, t)
      → RemovesEach names q t x
      → RemovesEach (key ∷ names) r b x
  next_turn key names r q b t (raised e, s) h g = absurd g
  next_turn key names r q b t (ok r', s) h g = (
    (λ j n. ground (arith, g.0 j, h.0 j, text_eq_iff j key)),
    omega arith,
    omega arith,
    (λ e j m. elim (Bool-cases (any (text_eq j) names)) [
      | inl i ↦ g.3 (omega arith) j i
      | inr i ↦ g.0 j i ∙ ground (arith, h.3 (omega arith), text_eq_iff j key)
    ]),
  )

  pub remove_each-RemovesEach :
      (names : List Text) (r : Removal) (b : B)
      → RemovesEach names r b (remove_each client names r b)
  unfolding remove_each
  remove_each-RemovesEach [] r b = ((λ j n. refl), omega arith, omega arith, (λ e j m. cc))
  remove_each-RemovesEach (key ∷ names) r b =
      bind-ensures (RemovesOne key r b) (RemovesEach (key ∷ names) r b) (remove_one client key r)
        (remove_each client names) b (remove_one-RemovesOne key r b)
        (λ q t h. next_turn key names r q b t _ h (remove_each-RemovesEach names q t))
        (λ e t h. absurd h)
