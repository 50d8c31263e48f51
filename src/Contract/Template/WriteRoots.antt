-- ===== src/Contract/Template/WriteRoots.antt =====
-- What a validated template promises of the directories that its writers may write.
use bimo.Base.{String, List, [], ◌∷◌, ok, >>=-eq-ok, ◌≡◌, arith, All, false}
use bimo.Js.{Value, get, text_of}
use bimo.Contract.Paths.{directories_overlap}
use bimo.Contract.Template.{
  validate_pod_template, check_writers, check_writer, first_element, writer_ids, Claim,
  refuse_overlap,
}

template-writers :
    (t u : Value)
    → validate_pod_template t ≡ ok u
    → check_writers (get t "writers") [] writer_ids ≡ ok tt
unfolding validate_pod_template
template-writers t u h = ground arith

abbrev pub root_of : Value → String → String
root_of writers writer = text_of (first_element (get (get writers writer) "allowedWriteRoots"))

abbrev pub ApartFrom : String → List Claim → Type 0
ApartFrom root claimed = All (λ (c : Claim). directories_overlap c.1 root ≡ false) claimed

pub refuse_overlap-ApartFrom :
    (what writer root : String) (claimed : List Claim)
    → refuse_overlap what writer root claimed ≡ ok tt
    → ApartFrom root claimed
refuse_overlap-ApartFrom what writer root [] h = tt
refuse_overlap-ApartFrom what writer root ((w, d) ∷ claimed) h =
    ground (arith, refuse_overlap-ApartFrom what writer root claimed)

check_writer-ApartFrom :
    (ws : Value) (claimed : List Claim) (w root : String)
    → check_writer ws claimed w ≡ ok root
    → (root ≡ root_of ws w) × ApartFrom root claimed
unfolding check_writer
check_writer-ApartFrom ws claimed w root h =
    ground (arith, refuse_overlap-ApartFrom "writer write roots" w (root_of ws w) claimed)

roots-disjoint :
    (ws : Value)
    → check_writers ws [] writer_ids ≡ ok tt
    → (directories_overlap (root_of ws "engineering-a") (root_of ws "engineering-b") ≡ false)
      × (directories_overlap (root_of ws "engineering-a") (root_of ws "qa-tests") ≡ false)
      × (directories_overlap (root_of ws "engineering-b") (root_of ws "qa-tests") ≡ false)
unfolding check_writers
roots-disjoint ws h =
    let (a, okA, restA) = >>=-eq-ok (check_writer ws [] "engineering-a") _ h in
    let (b, okB, restB) = >>=-eq-ok (check_writer ws _ "engineering-b") _ restA in
    let (c, okC, restC) = >>=-eq-ok (check_writer ws _ "qa-tests") _ restB in
    ground (
      arith,
      check_writer-ApartFrom ws [] "engineering-a" a okA,
      check_writer-ApartFrom ws _ "engineering-b" b okB,
      check_writer-ApartFrom ws _ "qa-tests" c okC,
    )

-- the write root that the template gives a writer
abbrev pub write_root : Value → String → String
write_root template writer = root_of (get template "writers") writer

-- The three writers of a validated template have write roots that do not overlap, whatever the case
-- of their letters.
pub template_roots_disjoint :
    (t u : Value)
    → validate_pod_template t ≡ ok u
    → (directories_overlap (write_root t "engineering-a") (write_root t "engineering-b") ≡ false)
      × (directories_overlap (write_root t "engineering-a") (write_root t "qa-tests") ≡ false)
      × (directories_overlap (write_root t "engineering-b") (write_root t "qa-tests") ≡ false)
template_roots_disjoint t u h = roots-disjoint (get t "writers") (template-writers t u h)
