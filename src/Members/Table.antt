-- ===== src/Members/Table.antt =====
-- The rows of the members' table under the changes that the store makes.
use uigraph_api.Prelude.{
  ℕ, suc, ◌≤◌, String, Bool, true, some, List, [], ◌∷◌, ◌≡◌, refl, ◌==◌, arith, filter, find,
  length, All, Bool-cases, inl, inr,
}
use uigraph_api.Db.{Db, Member, User, TeamMember}
use uigraph_api.Store.Tables.{update_where, delete_where, insert}
use uigraph_api.Store.Members.{has_user, joined}

abbrev pub in_org : String → Member → Bool
in_org org_id m = m.org_id == org_id

abbrev pub IsLinked : List User → Member → Type 0
IsLinked users m = has_user users m.user_id ≡ true

-- Every membership is a user's, and the organisation has no more of them than `limit`.
pub record IsWithin (org_id : String) (limit : ℕ) (db : Db) : Type 0 where
  pub linked : All (IsLinked db.users) db.members
  pub seated : length (filter (in_org org_id) db.members) ≤ limit

has-find :
    (users : List User) (id : String)
    → has_user users id ≡ true
    → (u : User) × (find (λ v. v.id == id) users ≡ some u)
has-find [] id h = absurd (ground arith)
has-find (x ∷ users) id h = elim (Bool-cases (x.id == id)) [
  | inl here ↦ (x, ground arith)
  | inr other ↦ let (u, found) = has-find users id (ground arith) in (u, ground arith)
]

-- Every linked membership is listed.
pub length-joined :
    (users : List User) (teams : List TeamMember) (members : List Member)
    → All (IsLinked users) members
    → length (joined users teams members) ≡ length members
unfolding joined
length-joined users teams [] h = refl
length-joined users teams (m ∷ members) (h, hs) =
    ground (arith, has-find users m.user_id h, length-joined users teams members hs)

pub IsLinked-filter :
    (users : List User) (p : Member → Bool) (members : List Member)
    → All (IsLinked users) members
    → All (IsLinked users) (filter p members)
IsLinked-filter users p [] h = tt
IsLinked-filter users p (m ∷ members) (h, hs) = ground (arith, IsLinked-filter users p members hs)

module _ (org_id : String) where
  pub length-insert :
      (m : Member) (members : List Member)
      → length (filter (in_org org_id) (insert m members))
        ≤ suc (length (filter (in_org org_id) members))
  length-insert m [] = ground arith
  length-insert m (x ∷ members) = ground (arith, length-insert m members)

  pub length-update_where :
      (p : Member → Bool) (f : Member → Member) (members : List Member)
      → ((m : Member) → (f m).org_id ≡ m.org_id)
      → length (filter (in_org org_id) (update_where p f members))
        ≡ length (filter (in_org org_id) members)
  unfolding update_where
  length-update_where p f [] same = refl
  length-update_where p f (x ∷ members) same =
      ground (arith, same x, length-update_where p f members same)

  pub length-delete_where :
      (p : Member → Bool) (members : List Member)
      → length (filter (in_org org_id) (delete_where p members))
        ≤ length (filter (in_org org_id) members)
  unfolding delete_where
  length-delete_where p [] = ground arith
  length-delete_where p (x ∷ members) = ground (arith, length-delete_where p members)

pub has_user-insert :
    (u : User) (users : List User) (id : String)
    → has_user users id ≡ true
    → has_user (insert u users) id ≡ true
has_user-insert u [] id h = absurd (ground arith)
has_user-insert u (x ∷ users) id h = ground (arith, has_user-insert u users id)

pub has_user-update_where :
    (p : User → Bool) (f : User → User) (users : List User) (id : String)
    → ((u : User) → (f u).id ≡ u.id)
    → has_user (update_where p f users) id ≡ has_user users id
unfolding update_where
has_user-update_where p f [] id same = refl
has_user-update_where p f (x ∷ users) id same =
    ground (arith, same x, has_user-update_where p f users id same)
