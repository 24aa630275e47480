-- ===== src/Infrastructure/Metadata/Listings.antt =====
-- The listings of the store are parts of one descending listing of the table.
use dms_core.Prelude.{
  ℕ, Text, Bool, true, ◌&&◌, Option, none, some, List, [], ◌∷◌, map, filter, take, drop, ◌≡◌, refl,
  ap, sym, subst, ◌∙◌,
}
use dms_core.Domain.Models.{DateTime, DocumentMetadata}
use dms_core.Domain.Exec.{Outcome, ok, raised, Exec, pure, ◌>>=◌}
use dms_core.Domain.Interfaces.{PageQuery, ListQuery}
use dms_core.Domain.Laws.{Lists, page_of, StartsAt, ListingLaws}
use dms_core.Domain.Order.{Position, is_listed, is_after}
use dms_core.Infrastructure.Metadata.{
  Row, Condition, Statement, Sessions, from_domain, to_domain, metadata_statement, domain_of,
  domain_all, list_statement, list_metadata, page_statement, start_of, list_metadata_page,
  after_condition, sql_store,
}
use dms_core.Infrastructure.Metadata.Laws.{SessionsLaws, Scalars, selects, read_back, limited}
use dms_core.Infrastructure.Metadata.Columns.{to_domain-only}
use dms_core.Infrastructure.Metadata.Selecting.{
  selects-append, selects-metadata_statement, selects-after_condition,
}

filter_same :
    {A : Type 0} (p q : A → Bool) (l : List A) → ((x : A) → p x ≡ q x) → filter p l ≡ filter q l
filter_same p q [] h = refl
filter_same p q (x ∷ l) h = rw (h x, filter_same p q l h) refl

module _ {D : Type 0} (sessions : Sessions D) (laws : SessionsLaws sessions) where
  abbrev row_of : DocumentMetadata → Row
  row_of m = read_back laws.aware (from_domain m)

  abbrev Reads : List DocumentMetadata → D → Outcome (List DocumentMetadata) × D → Type 0
  Reads l d (ok l', d') = (l' ≡ l) × (d' ≡ d)
  Reads l d (raised e, d') = d' ≡ d

  domain_all-Reads :
      (l : List DocumentMetadata) (d : D) → Reads l d (domain_all sessions (map row_of l) d)
  unfolding domain_all domain_of
  domain_all-Reads [] d = (refl, refl)
  domain_all-Reads (m ∷ l) d =
      head (to_domain (row_of m)) (to_domain-only laws.aware m) (domain_all-Reads l d)
    where
      join :
          (n : DocumentMetadata) (x : Outcome (List DocumentMetadata) × D)
          → n ≡ m
          → Reads l d x
          → Reads (m ∷ l) d (((λ (_ : D). x) >>= λ rest. pure (n ∷ rest)) d)
      join n (ok k, d') e (f, h) = (ap (λ z. n ∷ z) f ∙ ap (λ z. z ∷ l) e, h)
      join n (raised e', d') e h = h

      head :
          (o : Option DocumentMetadata)
          → ((n : DocumentMetadata) → o ≡ some n → n ≡ m)
          → Reads l d (domain_all sessions (map row_of l) d)
          → Reads (m ∷ l) d (
              (domain_of sessions o >>= λ n.
              domain_all sessions (map row_of l) >>= λ rest. pure (n ∷ rest))
                d)
      head none h r = refl
      head (some n) h r = join n (domain_all sessions (map row_of l) d) (h n refl) r

  abbrev chosen : Statement → D → List DocumentMetadata
  chosen q d =
      limited q.limit (drop q.offset (filter (selects laws.before q.conditions) (laws.documents d)))

  -- What a listing statement gives, as documents.
  query-Lists :
      (q : Statement) (d : D)
      → q.newest_first ≡ true
      → Lists laws.documents d (chosen q d) ((sessions.scalars q >>= domain_all sessions) d)
  query-Lists q d h = go (sessions.scalars q d) (laws.scalars q d h)
    where
      read :
          (d' : D) (x : Outcome (List DocumentMetadata) × D)
          → laws.documents d' ≡ laws.documents d
          → Reads (chosen q d) d' x
          → Lists laws.documents d (chosen q d) x
      read d' (ok l, v) kept (e, same) = (e, ap laws.documents same ∙ kept)
      read d' (raised e, v) kept same = ap laws.documents same ∙ kept

      go :
          (x : Outcome (List Row) × D)
          → Scalars laws.documents laws.before laws.aware q d x
          → Lists laws.documents d (chosen q d) (((λ (_ : D). x) >>= domain_all sessions) d)
      go (ok rows, v) (e, kept) = read v (domain_all sessions rows v) kept (
          subst (λ r. Reads (chosen q d) v (domain_all sessions r v)) (sym e)
            (domain_all-Reads (chosen q d) v))
      go (raised e, v) kept = kept

  pub list_metadata-Lists :
      (q : ListQuery) (d : D)
      → Lists laws.documents d
          (take q.limit (
            drop q.offset
              (filter (is_listed q.partition q.status q.excluded_statuses) (laws.documents d))))
          (list_metadata sessions q d)
  unfolding list_metadata
  list_metadata-Lists q d =
      subst
        (λ l.
          Lists laws.documents d (take q.limit (drop q.offset l))
            ((sessions.scalars (list_statement q) >>= domain_all sessions) d))
        (filter_same (selects laws.before (list_statement q).conditions)
          (is_listed q.partition q.status q.excluded_statuses) (laws.documents d)
          (selects-metadata_statement laws.before q.partition q.status q.excluded_statuses))
        (query-Lists (list_statement q) d refl)

  page_selects :
      (q : PageQuery) (p : Position) (m : DocumentMetadata)
      → selects laws.before
          (page_statement q (after_condition p.created_at p.document_id ∷ [])).conditions
          m
        ≡ is_listed q.partition q.status q.excluded_statuses m && is_after laws.before (some p) m
  page_selects q p m =
      rw
        (
          selects-append laws.before (metadata_statement q.partition q.status q.excluded_statuses)
              (after_condition p.created_at p.document_id ∷ []) m,
          selects-metadata_statement laws.before q.partition q.status q.excluded_statuses m,
          selects-after_condition laws.before p m,
        )
        refl

  page_selects_all :
      (q : PageQuery) (m : DocumentMetadata)
      → selects laws.before (page_statement q []).conditions m
        ≡ is_listed q.partition q.status q.excluded_statuses m && true
  unfolding selects
  page_selects_all q m =
      rw
        (
          selects-append laws.before (metadata_statement q.partition q.status q.excluded_statuses)
              [] m,
          selects-metadata_statement laws.before q.partition q.status q.excluded_statuses m,
        )
        refl

  abbrev from_start : PageQuery → List Condition → Exec D (List DocumentMetadata)
  from_start q after = sessions.scalars (page_statement q after) >>= domain_all sessions

  from_start-Lists :
      (q : PageQuery) (after : Option Position) (conditions : List Condition) (d : D)
      → ((m : DocumentMetadata)
          → selects laws.before (page_statement q conditions).conditions m
            ≡ is_listed q.partition q.status q.excluded_statuses m && is_after laws.before after m)
      → Lists laws.documents d
          (page_of laws.before q after (laws.documents d))
          (from_start q conditions d)
  from_start-Lists q after conditions d h =
      subst (λ l. Lists laws.documents d (take q.limit l) (from_start q conditions d))
        (filter_same (selects laws.before (page_statement q conditions).conditions)
          (λ m.
            is_listed q.partition q.status q.excluded_statuses m && is_after laws.before after m)
          (laws.documents d) h)
        (query-Lists (page_statement q conditions) d refl)

  the_start :
      (q : PageQuery) (p : Position)
      → q.after_created_at ≡ some p.created_at
      → q.after_document_id ≡ some p.document_id
      → ◌≡◌ {A = Option DateTime × Option Text}
          (some p.created_at, some p.document_id)
          (q.after_created_at, q.after_document_id)
  the_start q p t i = cc

  pub list_metadata_page-Lists :
      (q : PageQuery) (after : Option Position) (d : D)
      → StartsAt q after
      → Lists laws.documents d
          (page_of laws.before q after (laws.documents d))
          (list_metadata_page sessions q d)
  unfolding list_metadata_page start_of
  list_metadata_page-Lists q none d (t, i) =
      subst
        (λ s.
          Lists laws.documents d (page_of laws.before q none (laws.documents d))
            ((start_of sessions s q.after_document_id >>= from_start q) d))
        (sym t) (from_start-Lists q none [] d (page_selects_all q))
  list_metadata_page-Lists q (some p) d (t, i) =
      subst
        (λ s.
          Lists laws.documents d (page_of laws.before q (some p) (laws.documents d))
            ((start_of sessions s.0 s.1 >>= from_start q) d))
        (the_start q p t i)
        (from_start-Lists q (some p) (after_condition p.created_at p.document_id ∷ []) d
          (page_selects q p))

  -- Where SQLAlchemy's sessions keep their documented behaviour: the listing by offset and limit
  -- gives that window of the documents that the query selects, in descending order, and the page
  -- behind a position gives as many of the selected documents as the limit allows of those that
  -- come after it; neither changes the table, also where it raises.
  pub sql_store-Lists :
      (fuel : ℕ) (q : ListQuery) (r : PageQuery) (after : Option Position) (d : D)
      → StartsAt r after
      → Lists laws.documents d
          (take q.limit (
            drop q.offset
              (filter (is_listed q.partition q.status q.excluded_statuses) (laws.documents d))))
          ((sql_store sessions fuel).list_metadata q d)
        × Lists laws.documents d
            (page_of laws.before r after (laws.documents d))
            ((sql_store sessions fuel).list_metadata_page r d)
  sql_store-Lists fuel q r after d h =
      (list_metadata-Lists q d, list_metadata_page-Lists r after d h)

  -- The interface that the listings take, filled by this store.
  abbrev pub listing_laws : (fuel : ℕ) → ListingLaws (sql_store sessions fuel)
  listing_laws fuel = record {
    before = laws.before;
    order = laws.order;
    listing = laws.documents;
    descends = laws.descends;
    pages = list_metadata_page-Lists;
    windows = list_metadata-Lists;
  }
