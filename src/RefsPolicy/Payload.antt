-- ===== src/RefsPolicy/Payload.antt =====
-- src/cmd/signing.rs: what is signed, compared with what is stored.
use gyt.Base.{◌≡◌, refl, ap, ◌∙◌, none, List, [], ◌∷◌, ◌++◌, map, append_assoc}
use gyt.Text.Cuts.{Bytes, codes}
use gyt.Text.Blocks.{unlines}
use gyt.Hash.{ObjectId, to_hex}
use gyt.Object.Commit.{Commit, header_lines, parent_line, encode}
use gyt.RefsPolicy.Signatures.{push_lines, commit_payload_without_sig}

push_line :
    (prefix x : Bytes) (tail : List Bytes) (rest : Bytes)
    → (prefix ++ (x ++ codes "\n")) ++ (unlines tail ++ rest)
      ≡ unlines ((prefix ++ x) ∷ tail) ++ rest
unfolding unlines
push_line prefix x tail rest = simp append_assoc

-- A loop that pushes lines, with the lines and the text behind it.
push_lines-unlines :
    (prefix : Bytes) (xs tail : List Bytes) (rest : Bytes)
    → push_lines prefix xs ++ (unlines tail ++ rest)
      ≡ unlines (map (λ x. prefix ++ x) xs ++ tail) ++ rest
unfolding push_lines unlines
push_lines-unlines prefix [] tail rest = refl
push_lines-unlines prefix (x ∷ xs) tail rest =
    append_assoc (prefix ++ (x ++ codes "\n")) (push_lines prefix xs) (unlines tail ++ rest)
    ∙ ap (λ t. (prefix ++ (x ++ codes "\n")) ++ t) (push_lines-unlines prefix xs tail rest)
    ∙ push_line prefix x (map (λ y. prefix ++ y) xs ++ tail) rest

parent_lines :
    (ps : List ObjectId) → map (λ x. codes "parent " ++ x) (map to_hex ps) ≡ map parent_line ps
parent_lines [] = refl
parent_lines (p ∷ ps) = ap (λ t. parent_line p ∷ t) (parent_lines ps)

-- What is signed is the encoding of the commit without its signature.
pub commit_payload_lem :
    (c : Commit) → commit_payload_without_sig c ≡ encode (record c { signature = none })
unfolding commit_payload_without_sig encode header_lines unlines
commit_payload_lem c =
    let end = codes "\n" ++ c.message in
    let reviewers = map (λ x. codes "reviewer " ++ x) c.reviewers ++ [] in
    let ais = map (λ x. codes "ai " ++ x) c.ai_assists ++ reviewers in
    let committed = (codes "committer " ++ c.committer) ∷ ais in
    let authors = map (λ x. codes "author " ++ x) c.authors ++ committed in
    let e₁ = push_lines-unlines (codes "reviewer ") c.reviewers [] end in
    let e₂ =
      ap (λ t. push_lines (codes "ai ") c.ai_assists ++ t) e₁
      ∙ push_lines-unlines (codes "ai ") c.ai_assists reviewers end in
    let e₃ =
      ap (λ t. (codes "committer " ++ (c.committer ++ codes "\n")) ++ t) e₂
      ∙ push_line (codes "committer ") c.committer ais end in
    let e₄ =
      ap (λ t. push_lines (codes "author ") c.authors ++ t) e₃
      ∙ push_lines-unlines (codes "author ") c.authors committed end in
    let e₅ =
      ap (λ t. push_lines (codes "parent ") (map to_hex c.parents) ++ t) e₄
      ∙ push_lines-unlines (codes "parent ") (map to_hex c.parents) authors end in
    let e₆ =
      ap (λ t. (codes "tree " ++ (to_hex c.tree ++ codes "\n")) ++ t) e₅
      ∙ push_line (codes "tree ") (to_hex c.tree)
          (map (λ x. codes "parent " ++ x) (map to_hex c.parents) ++ authors) end in
    e₆
    ∙ ap (λ ps. unlines ((codes "tree " ++ to_hex c.tree) ∷ (ps ++ authors)) ++ end)
        (parent_lines c.parents)
