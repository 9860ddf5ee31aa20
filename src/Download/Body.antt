-- ===== src/Download/Body.antt =====
-- The bound on bodies.
use foia_search_mcp.Prelude.{
  ℕ, ◌+◌, ◌≤◌, false, List, [], ◌∷◌, ◌++◌, append-nil, append_assoc, map, ltb, length,
  length-append, Chars, Result, ok, err, ◌≡◌, ◌↔◌, refl, sym, ap, ◌∙◌, arith, Bool-cases, inl, inr,
}
use mathlib.Core.List.{flatten}
use foia_search_mcp.Download.Http.{read_bounded}

-- What pieces come to: all bytes, if all come and there are at most `n`.
abbrev pub IsBody : ℕ → List (Result Chars (List ℕ)) → List ℕ → Type 0
IsBody n pieces body =
    (parts : List (List ℕ)) × (pieces ≡ map ok parts) × (body ≡ flatten parts) × (length body ≤ n)

read_lem :
    (n : ℕ) (url : Chars) (pieces : List (Result Chars (List ℕ))) (start body : List ℕ)
    → length start ≤ n
    → read_bounded n url pieces start ≡ ok body
    → (parts : List (List ℕ)) × (pieces ≡ map ok parts)
      × (body ≡ start ++ flatten parts)
      × (length body ≤ n)
unfolding read_bounded flatten
read_lem n url [] start body small e =
    let same : start ≡ body = ground arith in
    ([], refl, sym same ∙ sym (append-nil start), rw (sym same) small)
read_lem n url (err x ∷ pieces) start body small e = ground arith
read_lem n url (ok piece ∷ pieces) start body small e =
    elim (Bool-cases (ltb n (length start + length piece))) [
      | inl large ↦ absurd (ground arith)
      | inr fits ↦
          let (parts, all, whole, bound) =
            read_lem n url pieces (start ++ piece) body (ground (arith, length-append start piece))
              (ground arith) in
          (
            piece ∷ parts,
            ap (λ t. ok piece ∷ t) all,
            whole ∙ append_assoc start piece (flatten parts),
            bound,
          )
    ]

read_all :
    (n : ℕ) (url : Chars) (parts : List (List ℕ)) (start : List ℕ)
    → length (start ++ flatten parts) ≤ n
    → read_bounded n url (map ok parts) start ≡ ok (start ++ flatten parts)
unfolding read_bounded flatten
read_all n url [] start small = ap ok (sym (append-nil start))
read_all n url (piece ∷ parts) start small =
    let small_too : length ((start ++ piece) ++ flatten parts) ≤ n =
      rw (append_assoc start piece (flatten parts)) small in
    let fits : ltb n (length start + length piece) ≡ false =
      ground (arith, length-append start piece, length-append (start ++ piece) (flatten parts)) in
    rw fits (
      read_all n url parts (start ++ piece) small_too
      ∙ ap ok (append_assoc start piece (flatten parts)))

-- Reading a body returns bytes exactly if every piece comes and the pieces together are at most the
-- limit, and the bytes are then those of the pieces in order.
pub read_bounded-IsBody :
    (n : ℕ) (url : Chars) (pieces : List (Result Chars (List ℕ))) (body : List ℕ)
    → (read_bounded n url pieces [] ≡ ok body) ↔ IsBody n pieces body
read_bounded-IsBody n url pieces body = (
  λ e. read_lem n url pieces [] body (omega arith) e,
  λ (parts, all, whole, bound). rw (all, whole) (read_all n url parts [] (rw (sym whole) bound)),
)
