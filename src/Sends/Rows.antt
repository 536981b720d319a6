-- ===== src/Sends/Rows.antt =====
-- How the updates of the `sends` table change its rows, and how many drafts of one id there are.
use whatsapp_mcp_plugin.Prelude.{
  ℕ, ◌+◌, ◌≤◌, ◌≡◌, refl, subst, String, Bool, true, false, ◌&&◌, some, List, [], ◌∷◌, same,
  same→eq, arith, any, Bool-cases, inl, inr, if◌then◌else◌,
}
use whatsapp_mcp_plugin.Sends.{Send, is_draft, find_send, insert_send, update_send, affects}

-- Rows of one id, and those of them that are still drafts.
unfoldable pub rows : String → List Send → ℕ
rows id [] = 0
rows id (r ∷ rs) = (if same r.draft_id id then 1 else 0) + rows id rs

unfoldable pub drafts : String → List Send → ℕ
drafts id [] = 0
drafts id (r ∷ rs) = (if same r.draft_id id && is_draft r.status then 1 else 0) + drafts id rs

module _ (j : String) (p : Send → Bool) (f : Send → Send) where
  pub rows-update_send :
      ((r : Send) → (f r).draft_id ≡ r.draft_id)
      → (id : String) (rs : List Send) → rows id (update_send j p f rs) ≡ rows id rs
  unfolding rows update_send
  rows-update_send h id [] = refl
  rows-update_send h id (r ∷ rs) = ground (arith, h r, rows-update_send h id rs)

  -- An update that leaves no draft behind makes none.
  pub drafts-update_send :
      ((r : Send) → is_draft (f r).status ≡ false)
      → (id : String) (rs : List Send) → drafts id (update_send j p f rs) ≤ drafts id rs
  unfolding drafts update_send
  drafts-update_send h id [] = omega arith
  drafts-update_send h id (r ∷ rs) = ground (arith, h r, drafts-update_send h id rs)

  pub find-update_send :
      ((r : Send) → (f r).draft_id ≡ r.draft_id)
      → (rs : List Send) (r : Send) → find_send j rs ≡ some r
      → find_send j (update_send j p f rs) ≡ some (if p r then f r else r)
  unfolding find_send update_send
  find-update_send h [] r e = ground arith
  find-update_send h (q ∷ rs) r e = ground (arith, h q, find-update_send h rs r)

pub drafts-le-rows : (id : String) (rs : List Send) → drafts id rs ≤ rows id rs
unfolding drafts rows
drafts-le-rows id [] = omega arith
drafts-le-rows id (r ∷ rs) = ground (arith, drafts-le-rows id rs)

-- The guarded update that affects a row had a draft there, and leaves none.
pub affects-drafts :
    (id : String) (rs : List Send)
    → affects id (λ q. is_draft q.status) rs ≡ true
    → 1 ≤ drafts id rs
unfolding affects drafts
affects-drafts id [] h = ground arith
affects-drafts id (r ∷ rs) h = ground (arith, affects-drafts id rs)

pub drafts-claimed :
    (id : String) (f : Send → Send)
    → ((r : Send) → is_draft (f r).status ≡ false)
    → (rs : List Send) → drafts id (update_send id (λ q. is_draft q.status) f rs) ≡ 0
unfolding drafts update_send
drafts-claimed id f h [] = refl
drafts-claimed id f h (r ∷ rs) = ground (arith, h r, drafts-claimed id f h rs)

any-rows :
    (id : String) (rs : List Send) → any (λ q. same q.draft_id id) rs ≡ false → rows id rs ≡ 0
unfolding rows
any-rows id [] h = refl
any-rows id (r ∷ rs) h = ground (arith, any-rows id rs)

-- The primary key: what is inserted was not there.
pub insert_send-rows :
    (r : Send) (rs ss : List Send)
    → insert_send r rs ≡ some ss
    → (ss ≡ r ∷ rs) × (rows r.draft_id rs ≡ 0)
unfolding insert_send
insert_send-rows r rs ss e = ground (arith, any-rows r.draft_id rs)

-- A guarded update that affects a row of `j` spends a draft of `j`, and none of another id.
pub claim-drafts :
    (j : String) (f : Send → Send) (rs : List Send) (id : String)
    → ((r : Send) → is_draft (f r).status ≡ false)
    → affects j (λ q. is_draft q.status) rs ≡ true
    → (if same j id then 1 else 0) + drafts id (update_send j (λ q. is_draft q.status) f rs)
      ≤ drafts id rs
claim-drafts j f rs id d h = elim (Bool-cases (same j id)) [
  | inl e ↦ rw e (
      subst
        (λ (k : String). 1 + drafts k (update_send j (λ q. is_draft q.status) f rs) ≤ drafts k rs)
        (same→eq j id e) (omega (arith, drafts-claimed j f d rs, affects-drafts j rs h)))
  | inr e ↦ rw e (omega (arith, drafts-update_send j (λ q. is_draft q.status) f d id rs))
]
