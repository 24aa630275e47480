-- ===== src/Sdk/Documents/Iterating.antt =====
-- What `iter_documents` yields, page after page.
use dms_core.Prelude.{
  ℕ, zero, suc, ◌<◌, Text, is_blank, true, false, Option, none, some, List, [], ◌∷◌, ◌++◌, map,
  length, take, drop, filter, ◌≡◌, refl, ap, sym, subst, ◌∙◌, arith, ℤ, pos_part, take-drop,
  length-drop-lt,
}
use dms_core.Domain.Models.{DocumentMetadata, DocumentPartition, DocumentStatus}
use dms_core.Domain.Errors.{Exc, validation_error, metadata_store_error}
use dms_core.Domain.Exec.{Outcome, Exec, ok, raised, pure, ◌>>=◌}
use dms_core.Domain.Exec.Rules.{bind-ensures}
use dms_core.Domain.Laws.{ListingLaws}
use dms_core.Domain.Order.{Position, position, is_listed, follows, IsDescending}
use dms_core.Domain.Order.Descending.{filter-IsDescending, filter-follows}
use dms_core.Sdk.Types.{DocumentPage, PublicDocumentMetadata, public_metadata}
use dms_core.Sdk.World.{World, Backend}
use dms_core.Sdk.Cursors.Laws.{CursorCodecLaws}
use dms_core.Sdk.Documents.Listing.{
  public_excluded_statuses, read_position, list_page, iter_documents,
}
use dms_core.Sdk.Documents.Pages.{
  visible, remaining, Reads, Kept, Continues, Pages, list_page-Pages,
}

module _ {A : Type 0} where
  filter_everything : (l : List A) → filter (λ _. true) l ≡ l
  filter_everything [] = refl
  filter_everything (x ∷ l) = ap (λ t. x ∷ t) (filter_everything l)

  append_assoc : (j k l : List A) → (j ++ k) ++ l ≡ j ++ (k ++ l)
  append_assoc [] k l = refl
  append_assoc (x ∷ j) k l = ap (λ t. x ∷ t) (append_assoc j k l)

-- A list that is cut behind the `n`-th element of its second part.
split_at :
    {A : Type 0} (v j r k : List A) (n : ℕ) (x : A)
    → v ≡ j ++ r
    → take n r ≡ k ++ x ∷ []
    → v ≡ (j ++ k) ++ x ∷ drop n r
split_at v j r k n x e cut =
    e
    ∙ ap (λ t. j ++ t)
        (sym (take-drop n r) ∙ ap (λ t. t ++ drop n r) cut ∙ append_assoc k (x ∷ []) (drop n r))
    ∙ sym (append_assoc j k (x ∷ drop n r))

map-append : {A B : Type 0} (f : A → B) (k l : List A) → map f (k ++ l) ≡ map f k ++ map f l
map-append f [] l = refl
map-append f (x ∷ k) l = ap (λ t. f x ∷ t) (map-append f k l)

module _ {D B O : Type 0} (env : Backend D B O) (laws : ListingLaws env.metadata_store)
    (codecs : CursorCodecLaws env.cursors) (p : DocumentPartition) (limit : ℤ)
    (status : Option DocumentStatus) where
  abbrev left : Option Position → World D B O → List DocumentMetadata
  left after w = remaining env laws codecs p limit status after w

  -- What is left of a listing that was read up to a position.
  abbrev IsTail : Option Position → World D B O → Type 0
  IsTail after w =
      (k : List DocumentMetadata) × (visible env laws codecs p limit status w ≡ k ++ left after w)

  abbrev pub Iterates :
      Option Position → World D B O → Outcome (List PublicDocumentMetadata) × World D B O → Type 0
  Iterates after w (ok items, w') =
      (items ≡ map public_metadata (left after w)) × Kept env laws codecs p limit status w w'
  Iterates after w (raised validation_error, w') = Kept env laws codecs p limit status w w'
  Iterates after w (raised metadata_store_error, w') = Kept env laws codecs p limit status w w'
  Iterates after w (raised _, w') = ⊥

  -- Behind the last of a page's documents stands what the page left.
  after_page :
      (after : Option Position) (w w' : World D B O) (n : ℕ) (x : DocumentMetadata)
      (k : List DocumentMetadata)
      → IsTail after w
      → Kept env laws codecs p limit status w w'
      → take n (left after w) ≡ k ++ x ∷ []
      → (left (some (position x)) w' ≡ drop n (left after w)) × IsTail (some (position x)) w'
  after_page after w w' n x k (j, tail) kept cut =
      let rest : List DocumentMetadata = drop n (left after w) in
      let before_page : visible env laws codecs p limit status w' ≡ (j ++ k) ++ x ∷ rest =
        ap (filter (is_listed p status public_excluded_statuses)) kept
        ∙ split_at (visible env laws codecs p limit status w) j (left after w) k n x tail cut in
      let next : left (some (position x)) w' ≡ rest =
        ap (filter (follows laws.before (position x))) before_page
        ∙ filter-follows laws.before laws.order (j ++ k) rest x (
            subst (IsDescending laws.before) before_page (
              filter-IsDescending laws.before laws.order
                (is_listed p status public_excluded_statuses) (laws.listing w'.db)
                (laws.descends w'.db))) in
      (
        next,
        (
          (j ++ k) ++ x ∷ [],
          before_page
              ∙ sym (append_assoc (j ++ k) (x ∷ []) rest)
              ∙ ap (λ r. ((j ++ k) ++ x ∷ []) ++ r) (sym next),
        ),
      )

  abbrev followed_by :
      ℕ
      → List PublicDocumentMetadata
      → Option Text
      → Exec (World D B O) (List PublicDocumentMetadata)
  followed_by fuel items none = pure items
  followed_by fuel items (some next) =
      iter_documents env fuel p (some next) limit status >>= λ rest. pure (items ++ rest)

  abbrev rest_of_pages : ℕ → DocumentPage → Exec (World D B O) (List PublicDocumentMetadata)
  rest_of_pages fuel page = followed_by fuel page.items page.next_cursor

  -- The items of a page stand before those of the pages behind it.
  join-Iterates :
      (after : Option Position) (w : World D B O) (n : ℕ) (x : DocumentMetadata)
      (items : List PublicDocumentMetadata) (w' : World D B O)
      (y : Outcome (List PublicDocumentMetadata) × World D B O)
      → items ≡ map public_metadata (take n (left after w))
      → left (some (position x)) w' ≡ drop n (left after w)
      → Kept env laws codecs p limit status w w'
      → Iterates (some (position x)) w' y
      → Iterates after w (((λ _. y) >>= λ rest. pure (items ++ rest)) w')
  join-Iterates after w n x items w' (ok rest, v) e next kept h = (
    ap (λ t. items ++ t) (h.0 ∙ ap (map public_metadata) next)
        ∙ ap (λ t. t ++ map public_metadata (drop n (left after w))) e
        ∙ sym (map-append public_metadata (take n (left after w)) (drop n (left after w)))
        ∙ ap (map public_metadata) (take-drop n (left after w)),
    h.1 ∙ kept,
  )
  join-Iterates after w n x items w' (raised validation_error, v) e next kept h = h ∙ kept
  join-Iterates after w n x items w' (raised metadata_store_error, v) e next kept h = h ∙ kept
  join-Iterates after w n x items w' (raised _, v) e next kept h = absurd h

  page_by_page :
      (fuel : ℕ) (after : Option Position) (w : World D B O) (items : List PublicDocumentMetadata)
      (cursor : Option Text) (w' : World D B O)
      → IsTail after w
      → ((c : Text) (x : DocumentMetadata)
          → Reads env laws codecs p limit status (some c) (some (position x))
          → IsTail (some (position x)) w'
          → length (left (some (position x)) w') < length (left after w)
          → Iterates (some (position x)) w' (iter_documents env fuel p (some c) limit status w'))
      → items ≡ map public_metadata (take (pos_part limit) (left after w))
      → Continues env laws codecs p limit status cursor (left after w)
      → Kept env laws codecs p limit status w w'
      → Iterates after w (followed_by fuel items cursor w')
  page_by_page fuel after w items none w' tail again e h kept =
      (e ∙ ap (map public_metadata) h, kept)
  page_by_page fuel after w items (some c) w' tail again e (x, k, cut, reads, g, l) kept =
      let (next, tail') = after_page after w w' (pos_part limit) x k tail kept cut in
      join-Iterates after w (pos_part limit) x items w'
        (iter_documents env fuel p (some c) limit status w') e next kept
        (again c x reads tail'
          (omega (arith, ap length next, length-drop-lt (pos_part limit) (left after w) g l)))

  pub iter_documents-Iterates :
      (fuel : ℕ) (cursor : Option Text) (after : Option Position) (w : World D B O)
      → is_blank p.partition_id ≡ false
      → Reads env laws codecs p limit status cursor after
      → IsTail after w
      → length (left after w) < fuel
      → Iterates after w (iter_documents env fuel p cursor limit status w)
  unfolding iter_documents
  iter_documents-Iterates zero cursor after w q reads tail enough = absurd (omega arith)
  iter_documents-Iterates (suc fuel) cursor after w q reads tail enough =
      bind-ensures (Pages env laws codecs p limit status after w) (Iterates after w)
        (list_page env p cursor limit status) (rest_of_pages fuel) w
        (list_page-Pages env laws codecs p limit status cursor after w q reads)
        (returns λ w' c x reads_c tail' shorter.
          iter_documents-Iterates fuel (some c) (some (position x)) w' q reads_c tail'
            (omega arith))
        raises
    where
      raises :
          (e : Exc) (w' : World D B O)
          → Pages env laws codecs p limit status after w (raised e, w')
          → Iterates after w (raised e, w')
      raises validation_error w' h = h
      raises metadata_store_error w' h = h
      raises _ w' h = absurd h

      returns :
          ((w' : World D B O) (c : Text) (x : DocumentMetadata)
            → Reads env laws codecs p limit status (some c) (some (position x))
            → IsTail (some (position x)) w'
            → length (left (some (position x)) w') < length (left after w)
            → Iterates (some (position x)) w' (iter_documents env fuel p (some c) limit status w'))
          → (page : DocumentPage) (w' : World D B O)
          → Pages env laws codecs p limit status after w (ok page, w')
          → Iterates after w (rest_of_pages fuel page w')
      returns again page w' h =
          page_by_page fuel after w page.items page.next_cursor w' tail (again w') h.0 h.2 h.3

  -- Where a metadata store keeps a descending listing and a cursor reads what it writes, and the
  -- partition's identifier is not blank: iterating over a partition without a cursor yields, if it
  -- ends well, each document that a public listing shows exactly once and in the listing's order,
  -- whatever the page size, and leaves the listing as it was; as many pages as there are documents
  -- and one more are enough, and it fails only with a validation or a metadata store error.
  pub iter_documents-whole :
      (fuel : ℕ) (w : World D B O)
      → is_blank p.partition_id ≡ false
      → length (visible env laws codecs p limit status w) < fuel
      → Iterates none w (iter_documents env fuel p none limit status w)
  unfolding read_position
  iter_documents-whole fuel w q enough =
      let every : left none w ≡ visible env laws codecs p limit status w =
        filter_everything (visible env laws codecs p limit status w) in
      iter_documents-Iterates fuel none none w q (λ v. refl) ([], sym every)
        (omega (arith, ap length every))
