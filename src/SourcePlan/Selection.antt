-- ===== src/SourcePlan/Selection.antt =====
-- Which asset of a record is selected.
use foia_search_mcp.Prelude.{
  ℕ, ◌+◌, ◌≤◌, ◌<◌, Bool, true, false, Option, none, some, List, [], ◌∷◌, ◌++◌, ◌≡◌, ◌⊎◌, refl, inl,
  inr, arith, ap, All, find, Bool-cases, Option-cases, if◌then◌else◌, ◌==◌, Result, ok, err,
}
use foia_search_mcp.Download.Types.{SourceAsset, html, ocr_text, transcript}
use foia_search_mcp.SourcePlan.Assets.{
  SourceRecord, PlannedSourceAsset, SourcePlanError, is_pdf_asset, has_role, is_text_file,
  plan_asset, plan_pdf_asset, plan_text_asset, fallback_pdf_asset, find_role_asset,
  find_plain_text_asset, no_ingestible_asset, select_asset, otherwise, planned, found_or,
}

-- The rank of an attachment: PDFs, then (after the record's own PDF URL, whose rank is 1) the text of
-- the source's OCR, transcripts, plain texts and HTML. What has rank 6 cannot be ingested.
abbrev pub rank : SourceAsset → ℕ
rank a =
    if is_pdf_asset a
    then 0
    else if has_role ocr_text a
    then 2
    else if has_role transcript a
    then 3
    else if is_text_file a
    then 4
    else if has_role html a
    then 5
    else 6

-- The plan for an attachment of a rank.
abbrev pub plan_ranked : ℕ → SourceAsset → PlannedSourceAsset
plan_ranked n a =
    if n == 0 then plan_pdf_asset a else if n == 4 then plan_text_asset a else plan_asset a

abbrev pub Above : ℕ → List SourceAsset → Type 0
Above n xs = All (λ x. n ≤ rank x) xs

-- `a` is the first of the least rank, `n`.
abbrev pub IsLeast : ℕ → SourceAsset → List SourceAsset → Type 0
IsLeast n a xs =
    (before : List SourceAsset) × (after : List SourceAsset) × (xs ≡ before ++ a ∷ after)
    × (rank a ≡ n)
    × Above (n + 1) before
    × Above n after

abbrev pub IsChoice : SourceRecord → Result SourcePlanError PlannedSourceAsset → Type 0
IsChoice r (ok chosen) =
    ((n : ℕ) × (a : SourceAsset) × (n < 6)
      × IsLeast n a r.attachments
      × (chosen ≡ plan_ranked n a)
      × (n ≡ 0 ⊎ fallback_pdf_asset r ≡ none))
    ⊎ ((fallback_pdf_asset r ≡ some chosen) × Above 2 r.attachments)
IsChoice r (err e) =
    (e ≡ no_ingestible_asset r) × Above 6 r.attachments × (fallback_pdf_asset r ≡ none)

-- A search for the assets of the rank `n`, where none has a lesser one.
find-rank :
    (p : SourceAsset → Bool) (n : ℕ)
    → ((x : SourceAsset) → n ≤ rank x → p x ≡ true → rank x ≡ n)
    → ((x : SourceAsset) → n ≤ rank x → p x ≡ false → n + 1 ≤ rank x)
    → (xs : List SourceAsset) → Above n xs
    → ((find p xs ≡ none) × Above (n + 1) xs)
      ⊎ ((a : SourceAsset) × (find p xs ≡ some a) × IsLeast n a xs)
find-rank p n hit miss [] above = inl (refl, tt)
find-rank p n hit miss (x ∷ xs) (low, above) = elim (Bool-cases (p x)) [
  | inl h ↦ inr (x, rw h refl, ([], xs, refl, hit x low h, tt, above))
  | inr h ↦ elim (find-rank p n hit miss xs above) [
    | inl (gone, higher) ↦ inl (rw h gone, (miss x low h, higher))
    | inr (a, found, (before, after, split, e, higher, rest)) ↦
        inr (
          a,
          rw h found,
          (x ∷ before, after, ap (λ t. x ∷ t) split, e, (miss x low h, higher), rest),
        )
  ]
]

Above-zero : (xs : List SourceAsset) → Above 0 xs
Above-zero [] = tt
Above-zero (x ∷ xs) = (omega arith, Above-zero xs)

-- No attachment has the rank of the record's own PDF URL.
Above-two : (xs : List SourceAsset) → Above 1 xs → Above 2 xs
Above-two [] h = tt
Above-two (x ∷ xs) h = (ground arith, Above-two xs h.1)

module _ (r : SourceRecord) where
  -- What a part of the search comes to, where the record has no PDF URL.
  abbrev IsTail : Option PlannedSourceAsset → Type 0
  IsTail none = Above 6 r.attachments
  IsTail (some chosen) =
      (n : ℕ) × (a : SourceAsset) × (n < 6) × IsLeast n a r.attachments × (chosen ≡ plan_ranked n a)

  last_step :
      (p : SourceAsset → Bool) (n : ℕ) (f : SourceAsset → PlannedSourceAsset)
      → n < 6
      → ((a : SourceAsset) → f a ≡ plan_ranked n a)
      → ((x : SourceAsset) → n ≤ rank x → p x ≡ true → rank x ≡ n)
      → ((x : SourceAsset) → n ≤ rank x → p x ≡ false → n + 1 ≤ rank x)
      → Above n r.attachments
      → (next : Option PlannedSourceAsset) → (Above (n + 1) r.attachments → IsTail next)
      → IsTail (otherwise (planned f (find p r.attachments)) next)
  last_step p n f small plans hit miss above next rest =
      elim (find-rank p n hit miss r.attachments above) [
        | inl (gone, higher) ↦ rw gone (rest higher)
        | inr (a, found, least) ↦ rw found (n, a, small, least, plans a)
      ]

  otherwise-none : (o : Option PlannedSourceAsset) → otherwise o none ≡ o
  otherwise-none none = refl
  otherwise-none (some a) = refl

  texts-IsTail :
      Above 2 r.attachments
      → IsTail (
          otherwise (find_role_asset r ocr_text) (
            otherwise
              (find_role_asset r transcript)
              (otherwise (find_plain_text_asset r) (find_role_asset r html))))
  unfolding find_role_asset find_plain_text_asset
  texts-IsTail above =
      last_step (has_role ocr_text) 2 plan_asset (omega arith) (λ a. refl) (λ x l h. ground arith)
        (λ x l h. ground arith) above _
        λ above.
          last_step (has_role transcript) 3 plan_asset (omega arith) (λ a. refl)
            (λ x l h. ground arith) (λ x l h. ground arith) above _
            λ above.
              last_step is_text_file 4 plan_text_asset (omega arith) (λ a. refl)
                (λ x l h. ground arith) (λ x l h. ground arith) above _
                λ above.
                  rw (← otherwise-none (planned plan_asset (find (has_role html) r.attachments))) (
                    last_step (has_role html) 5 plan_asset (omega arith) (λ a. refl)
                      (λ x l h. ground arith) (λ x l h. ground arith) above none λ above. above)

  tail-IsChoice :
      (o : Option PlannedSourceAsset)
      → fallback_pdf_asset r ≡ none
      → IsTail o
      → IsChoice r (found_or (no_ingestible_asset r) o)
  tail-IsChoice none no_url h = (refl, h, no_url)
  tail-IsChoice (some chosen) no_url (n, a, small, least, e) =
      inl (n, a, small, least, e, inr no_url)

-- The asset that is selected is the plan of the first attachment of the least rank, or a PDF at the
-- record's own URL where there is one and no attachment is a PDF; and a record is refused, with the
-- roles of its attachments, where none of them has a rank and the record has no PDF URL.
pub select_asset-IsChoice : (r : SourceRecord) → IsChoice r (select_asset r)
unfolding select_asset
select_asset-IsChoice r =
    elim (find-rank is_pdf_asset 0 (λ x l h. ground arith) (λ x l h. ground arith) r.attachments
      (Above-zero r.attachments)) [
        | inr (a, found, least) ↦
            rw (select_asset, found) (inl (0, a, omega arith, least, refl, inl refl))
        | inl (no_pdf, above) ↦
            let above_pdfs = Above-two r.attachments above in
            elim (Option-cases (fallback_pdf_asset r)) [
              | inr (chosen, url) ↦ rw (select_asset, no_pdf, url) (inr (url, above_pdfs))
              | inl no_url ↦
                  rw (select_asset, no_pdf, no_url)
                    (tail-IsChoice r _ no_url (texts-IsTail r above_pdfs))
            ]
      ]
