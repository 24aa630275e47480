-- ===== src/Sdk/Documents/Pages.antt =====
-- What `list_page` gives of a listing: one page, and a cursor to what is left.
use dms_core.Prelude.{
  suc, ◌+◌, ◌<◌, Text, is_blank, Bool, true, false, not, ◌||◌, Option, none, some, List, [], ◌∷◌,
  ◌++◌, map, length, take, filter, get_last?, ltb, ltb→lt, ◌≡◌, inl, inr, refl, ap, sym, subst, ◌∙◌,
  arith, Bool-cases, ℤ, pos, negsuc, is_positive, exceeds, pos_part, int_eq, text_eq_refl,
  take-take-suc, length-take_more, take_all, get_last?-some, get_last?-take,
}
use dms_core.Domain.Models.{DocumentMetadata, DocumentPartition, DocumentStatus, partition_eq_refl}
use dms_core.Domain.Errors.{Exc, validation_error, metadata_store_error}
use dms_core.Domain.Exec.{Outcome, Exec, ok, raised, pure, raise, catch, raise_if, ◌>>=◌, ◌>>◌}
use dms_core.Domain.Exec.Rules.{bind-ensures, guard-ensures}
use dms_core.Domain.Laws.{ListingLaws, Lists, page_of, StartsAt}
use dms_core.Domain.Order.{Position, position, is_listed, is_after}
use dms_core.Domain.Order.Descending.{filter-filter}
use dms_core.Domain.Interfaces.{PageQuery}
use dms_core.Sdk.Types.{DocumentPage, public_metadata}
use dms_core.Sdk.World.{World, Backend, on_db}
use dms_core.Sdk.Cursors.{status_text, encode_cursor}
use dms_core.Sdk.Cursors.Laws.{CursorCodecLaws}
use dms_core.Sdk.Cursors.RoundTrip.{decode_cursor-encode_cursor}
use dms_core.Sdk.Documents.Listing.{
  public_excluded_statuses, same_status, check_cursor, check_decoded, read_position, next_cursor,
  encoded, fetch_page, make_page, list_page, validate_public_status, given_excluded, max_page_limit,
  created_of, id_of,
}

same_status_refl : (s : Option Text) → same_status s s ≡ true
unfolding same_status
same_status_refl none = refl
same_status_refl (some s) = text_eq_refl s

int_eq_refl : (n : ℤ) → int_eq n n ≡ true
int_eq_refl (pos n) = ground arith
int_eq_refl (negsuc n) = ground arith

is_positive-pos_part : (n : ℤ) → is_positive n ≡ true → 0 < pos_part n
is_positive-pos_part (pos n) h = ground arith
is_positive-pos_part (negsuc n) h = ground arith

module _ {D B O : Type 0} (env : Backend D B O) (laws : ListingLaws env.metadata_store)
    (codecs : CursorCodecLaws env.cursors) (p : DocumentPartition) (limit : ℤ)
    (status : Option DocumentStatus) where
  -- The documents that a public listing shows.
  abbrev pub visible : World D B O → List DocumentMetadata
  visible w = filter (is_listed p status public_excluded_statuses) (laws.listing w.db)

  -- Those behind a position.
  abbrev pub remaining : Option Position → World D B O → List DocumentMetadata
  remaining after w = filter (is_after laws.before after) (visible w)

  -- A cursor that stands for a position.
  abbrev pub Reads : Option Text → Option Position → Type 0
  Reads cursor after = (w : World D B O) → read_position env cursor p limit status w ≡ (ok after, w)

  -- A cursor that was made for a document is read as its position.
  encoded-Reads :
      (m : DocumentMetadata) (c : Text)
      → is_blank p.partition_id ≡ false
      → encode_cursor env.cursors m.created_at m.document_id status limit p ≡ some c
      → Reads (some c) (some (position m))
  unfolding read_position check_decoded check_cursor
  encoded-Reads m c q h w =
      rw
        (
          decode_cursor-encode_cursor env.cursors codecs m.created_at m.document_id status limit p c
              q h,
          check_decoded,
          check_cursor,
          same_status_refl (status_text status),
          int_eq_refl limit,
          partition_eq_refl p,
        )
        refl

  abbrev pub Kept : World D B O → World D B O → Type 0
  Kept w w' = laws.listing w'.db ≡ laws.listing w.db

  abbrev Fetches :
      Option Position → World D B O → Outcome (List DocumentMetadata) × World D B O → Type 0
  Fetches after w (ok l, w') = (l ≡ take (suc (pos_part limit)) (remaining after w)) × Kept w w'
  Fetches after w (raised metadata_store_error, w') = Kept w w'
  Fetches after w (raised _, w') = ⊥

  abbrev page_query : Option Position → PageQuery
  page_query after = record {
    partition = p;
    after_created_at = created_of after;
    after_document_id = id_of after;
    limit = pos_part limit + 1;
    status = status;
    excluded_statuses = public_excluded_statuses;
  }

  page_query-StartsAt : (after : Option Position) → StartsAt (page_query after) after
  page_query-StartsAt none = (refl, refl)
  page_query-StartsAt (some a) = (refl, refl)

  abbrev public_page : Option Position → World D B O → List DocumentMetadata
  public_page after w = page_of laws.before (page_query after) after (laws.listing w.db)

  public_page_lem :
      (after : Option Position) (w : World D B O)
      → public_page after w ≡ take (suc (pos_part limit)) (remaining after w)
  public_page_lem after w =
      let one : pos_part limit + 1 ≡ suc (pos_part limit) = omega arith in
      rw
        (
          filter-filter (is_after laws.before after) (is_listed p status public_excluded_statuses)
              (laws.listing w.db),
          one,
        )
        refl

  pub fetch_page-Fetches :
      (after : Option Position) (w : World D B O)
      → Fetches after w (fetch_page env after p limit status w)
  unfolding fetch_page
  fetch_page-Fetches after w =
      go (env.metadata_store.list_metadata_page (page_query after) w.db)
        (laws.pages (page_query after) after w.db (page_query-StartsAt after))
    where
      go :
          (x : Outcome (List DocumentMetadata) × D)
          → Lists laws.listing w.db (public_page after w) x
          → Fetches after w (catch (on_db (λ _. x)) (λ e. raise metadata_store_error) w)
      go (ok l, d) h = (h.0 ∙ public_page_lem after w, h.1)
      go (raised e, d) h = h

  -- How a page is cut: no cursor, or one that stands for the last item.
  abbrev Cuts :
      Bool → List DocumentMetadata → World D B O → Outcome (Option Text) × World D B O → Type 0
  Cuts more items w (ok none, w') = (more ≡ true → get_last? items ≡ none) × (w' ≡ w)
  Cuts more items w (ok (some c), w') =
      (x : DocumentMetadata) × (more ≡ true)
      × (get_last? items ≡ some x)
      × Reads (some c) (some (position x))
      × (w' ≡ w)
  Cuts more items w (raised validation_error, w') = w' ≡ w
  Cuts more items w (raised _, w') = ⊥

  next_cursor-Cuts :
      (more : Bool) (items : List DocumentMetadata) (w : World D B O)
      → is_blank p.partition_id ≡ false
      → Cuts more items w (next_cursor env more (get_last? items) p limit status w)
  unfolding next_cursor encoded
  next_cursor-Cuts false items w q = (λ h. cc, refl)
  next_cursor-Cuts true items w q = last_cursor (get_last? items) refl
    where
      from_encoded :
          (x : DocumentMetadata) (c : Option Text)
          → get_last? items ≡ some x
          → encode_cursor env.cursors x.created_at x.document_id status limit p ≡ c
          → Cuts true items w (encoded env c w)
      from_encoded x none e h = refl
      from_encoded x (some c) e h = (x, refl, e, encoded-Reads x c q h, refl)

      last_cursor :
          (l : Option DocumentMetadata)
          → get_last? items ≡ l
          → Cuts true items w (next_cursor env true l p limit status w)
      last_cursor none e = (λ _. e, refl)
      last_cursor (some x) e =
          from_encoded x (encode_cursor env.cursors x.created_at x.document_id status limit p) e
            refl

  -- Where a page ends: with all that is left, or before what its cursor stands for.
  abbrev pub Continues : Option Text → List DocumentMetadata → Type 0
  Continues none r = take (pos_part limit) r ≡ r
  Continues (some c) r =
      (x : DocumentMetadata) × (k : List DocumentMetadata) × (take (pos_part limit) r ≡ k ++ x ∷ [])
      × Reads (some c) (some (position x))
      × (0 < pos_part limit)
      × (0 < length r)

  abbrev pub Pages : Option Position → World D B O → Outcome DocumentPage × World D B O → Type 0
  Pages after w (ok page, w') =
      (page.items ≡ map public_metadata (take (pos_part limit) (remaining after w)))
      × (page.has_more ≡ ltb (pos_part limit) (length (remaining after w)))
      × Continues page.next_cursor (remaining after w)
      × Kept w w'
  Pages after w (raised validation_error, w') = Kept w w'
  Pages after w (raised metadata_store_error, w') = Kept w w'
  Pages after w (raised _, w') = ⊥

  abbrev more_than_page : List DocumentMetadata → Bool
  more_than_page r = ltb (pos_part limit) (length r)

  no_cursor-Continues :
      (r : List DocumentMetadata)
      → 0 < pos_part limit
      → (more_than_page r ≡ true → get_last? (take (pos_part limit) r) ≡ none)
      → Continues none r
  no_cursor-Continues r g h = elim (Bool-cases (more_than_page r)) [
    | inl e ↦
        let more : pos_part limit < length r = ltb→lt (pos_part limit) (length r) e in
        let (x, last) = get_last?-take (pos_part limit) r g (omega arith) in absurd (cc (h e, last))
    | inr e ↦ take_all (pos_part limit) r (ground arith)
  ]

  some_cursor-Continues :
      (r : List DocumentMetadata) (c : Text) (x : DocumentMetadata)
      → 0 < pos_part limit
      → more_than_page r ≡ true
      → get_last? (take (pos_part limit) r) ≡ some x
      → Reads (some c) (some (position x))
      → Continues (some c) r
  some_cursor-Continues r c x g m e reads =
      let (k, cut) = get_last?-some (take (pos_part limit) r) x e in
      (x, k, cut, reads, g, ground arith)

  abbrev page_items : List DocumentMetadata → List DocumentMetadata
  page_items l = take (pos_part limit) l

  make_page-Pages :
      (after : Option Position) (l : List DocumentMetadata) (v w : World D B O)
      → is_blank p.partition_id ≡ false
      → 0 < pos_part limit
      → Fetches after v (ok l, w)
      → Pages after v (make_page env l p limit status w)
  unfolding make_page
  make_page-Pages after l v w q g h =
      go (next_cursor env (more_than_page l) (get_last? (page_items l)) p limit status w)
        (next_cursor-Cuts (more_than_page l) (page_items l) w q)
    where
      same_items : page_items l ≡ take (pos_part limit) (remaining after v)
      same_items =
          ap (take (pos_part limit)) h.0 ∙ take-take-suc (pos_part limit) (remaining after v)

      same_more : more_than_page l ≡ more_than_page (remaining after v)
      same_more =
          ap (λ z. ltb (pos_part limit) (length z)) h.0
          ∙ length-take_more (pos_part limit) (remaining after v)

      go :
          (x : Outcome (Option Text) × World D B O)
          → Cuts (more_than_page l) (page_items l) w x
          → Pages after v (
              ((λ _. x) >>= λ next. pure (record {
                items = map public_metadata (page_items l);
                next_cursor = next;
                has_more = more_than_page l;
              }))
                w)
      go (ok none, w') (f, e) =
          let last : more_than_page (remaining after v) ≡ true
              → get_last? (take (pos_part limit) (remaining after v)) ≡ none =
            λ m. ap get_last? (sym same_items) ∙ f (same_more ∙ m) in
          (
            ap (map public_metadata) same_items,
            same_more,
            no_cursor-Continues (remaining after v) g last,
            ap (λ z. laws.listing z.db) e ∙ h.1,
          )
      go (ok (some c), w') (x, m, last, reads, e) = (
        ap (map public_metadata) same_items,
        same_more,
        some_cursor-Continues (remaining after v) c x g (sym same_more ∙ m)
            (ap get_last? (sym same_items) ∙ last) reads,
        ap (λ z. laws.listing z.db) e ∙ h.1,
      )
      go (raised validation_error, w') e = ap (λ z. laws.listing z.db) e ∙ h.1
      go (raised _, w') e = absurd e

  read_page-Pages :
      (after : Option Position) (w : World D B O)
      → is_blank p.partition_id ≡ false
      → 0 < pos_part limit
      → Pages after w
          ((fetch_page env after p limit status >>= λ l. make_page env l p limit status) w)
  read_page-Pages after w q g =
      bind-ensures (Fetches after w) (Pages after w) (fetch_page env after p limit status)
        (λ l. make_page env l p limit status) w (fetch_page-Fetches after w)
        (λ l w' h. make_page-Pages after l w w' q g h) (λ e w' h. fails e w' h)
    where
      fails :
          (e : Exc) (w' : World D B O)
          → Fetches after w (raised e, w')
          → Pages after w (raised e, w')
      fails metadata_store_error w' h = h
      fails _ w' h = absurd h

  abbrev after_position : Option Position → Exec (World D B O) DocumentPage
  after_position after = fetch_page env after p limit status >>= λ l. make_page env l p limit status

  abbrev bounded_page : Option Text → Exec (World D B O) DocumentPage
  bounded_page cursor =
      raise_if (not (is_positive limit) || exceeds limit max_page_limit) validation_error
      >> (read_position env cursor p limit status >>= after_position)

  -- Where a metadata store keeps a descending listing, a cursor codec reads what it writes, the
  -- partition's identifier is not blank and the cursor reads as a position (or there is none): a
  -- page that is returned holds as many of the documents behind the position as the limit allows,
  -- `has_more` tells whether there are others, and its cursor reads as the position of its last
  -- document, or is missing when the page holds all that was left. The listing stays as it was,
  -- also where the call raises, which it does only with a validation or a metadata store error.
  pub list_page-Pages :
      (cursor : Option Text) (after : Option Position) (w : World D B O)
      → is_blank p.partition_id ≡ false
      → Reads cursor after
      → Pages after w (list_page env p cursor limit status w)
  unfolding list_page validate_public_status
  list_page-Pages cursor after w q reads =
      guard-ensures (Pages after w) (given_excluded status) validation_error (bounded_page cursor) w
        (λ _. refl)
        (λ _.
          guard-ensures (Pages after w) (not (is_positive limit) || exceeds limit max_page_limit)
            validation_error (read_position env cursor p limit status >>= after_position) w
            (λ _. refl)
            (λ h.
              subst (λ x. Pages after w (((λ (_ : World D B O). x) >>= after_position) w))
                (sym (reads w))
                (read_page-Pages after w q (is_positive-pos_part limit (ground arith)))))
