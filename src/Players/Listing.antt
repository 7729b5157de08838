-- ===== src/Players/Listing.antt =====
-- The whitelist of backend/api/whitelist.go as a set of uuids.
use realmrunner.Common.{◌≡◌, ◌∙◌, refl, ap, inl, inr, String, Bool, true, false, not, ◌&&◌, ◌||◌}
use realmrunner.Common.{some, List, [], ◌∷◌, ◌++◌, if◌then◌else◌, arith}
use realmrunner.Common.{str_eq, str_eq_iff, Bool-cases}
use realmrunner.Players.{
  PlayerEntry, Desk, written, Reply, players, listed, already_listed, commanding, whitelist_reload,
  entries_of, has_uuid, without_uuid, add_to_whitelist, remove_from_whitelist,
}

-- Each uuid once.
abbrev pub IsUnique : List PlayerEntry → Type 0
IsUnique [] = Unit
IsUnique (e ∷ es) = (has_uuid e.uuid es ≡ false) × IsUnique es

has_uuid-append :
    (v : String) (es : List PlayerEntry) (e : PlayerEntry)
    → has_uuid v (es ++ e ∷ []) ≡ (str_eq e.uuid v || has_uuid v es)
has_uuid-append v [] e = refl
has_uuid-append v (x ∷ es) e = ground (arith, has_uuid-append v es e)

append-IsUnique :
    (es : List PlayerEntry) (e : PlayerEntry)
    → IsUnique es
    → has_uuid e.uuid es ≡ false
    → IsUnique (es ++ e ∷ [])
append-IsUnique [] e u h = (refl, tt)
append-IsUnique (x ∷ es) e (a, u) h = (
  has_uuid-append x.uuid es e
      ∙ ground (arith, a, h, str_eq_iff e.uuid x.uuid, str_eq_iff x.uuid e.uuid),
  append-IsUnique es e u (ground (arith, h)),
)

has_uuid-without :
    (gone v : String) (es : List PlayerEntry)
    → has_uuid v (without_uuid gone es) ≡ (not (str_eq gone v) && has_uuid v es)
unfolding without_uuid
has_uuid-without gone v [] = ground arith
has_uuid-without gone v (e ∷ es) = ground (
  arith,
  has_uuid-without gone v es,
  str_eq_iff e.uuid gone,
  str_eq_iff e.uuid v,
  str_eq_iff gone v,
)

without-IsUnique :
    (gone : String) (es : List PlayerEntry) → IsUnique es → IsUnique (without_uuid gone es)
unfolding without_uuid
without-IsUnique gone [] u = tt
without-IsUnique gone (e ∷ es) (a, u) = elim (Bool-cases (str_eq e.uuid gone)) [
  | inl t ↦ rw (without_uuid, t) (without-IsUnique gone es u)
  | inr t ↦
      rw (without_uuid, t)
        (has_uuid-without gone e.uuid es ∙ ground (arith, a), without-IsUnique gone es u)
]

-- The requests that change a whitelist: a player by name and uuid, or a uuid that goes.
pub data Request : Type 0 where
  adding : String → String → Request
  removing : String → Request

-- A request at a server that runs or not, where the lookup and the write work.
abbrev pub serve : Bool → Request → Desk → Desk
serve running (adding name uuid) d = (add_to_whitelist (some running) name (some uuid) written d).1
serve running (removing uuid) d = (remove_from_whitelist (some running) uuid written d).1

pub serve_all : List (Bool × Request) → Desk → Desk
serve_all [] d = d
serve_all ((running, r) ∷ rs) d = serve_all rs (serve running r d)

-- Whether a uuid is wanted, from what the requests say and from before.
abbrev pub wanted_after : Request → String → Bool → Bool
wanted_after (adding name uuid) v before = str_eq uuid v || before
wanted_after (removing uuid) v before = not (str_eq uuid v) && before

pub wanted : List (Bool × Request) → String → Bool → Bool
wanted [] v before = before
wanted ((running, r) ∷ rs) v before = wanted rs v (wanted_after r v before)

entries-if :
    (b : Bool) (x y : Reply × Desk)
    → entries_of (if b then x else y).1.file
      ≡ (if b then entries_of x.1.file else entries_of y.1.file)
entries-if true x y = refl
entries-if false x y = refl

entries-adding :
    (running : Bool) (name uuid : String) (d : Desk)
    → entries_of (serve running (adding name uuid) d).file ≡ (
        if has_uuid uuid (entries_of d.file)
        then entries_of d.file
        else entries_of d.file ++ record { uuid = uuid; name = name } ∷ [])
unfolding add_to_whitelist
entries-adding running name uuid d =
    let es = entries_of d.file in
    let es' = es ++ record { uuid = uuid; name = name } ∷ [] in
    entries-if (has_uuid uuid es) (already_listed es, d)
      (
        listed es',
        record { file = players es'; commands = commanding running whitelist_reload d.commands },
      )

has_uuid-serve :
    (running : Bool) (r : Request) (v : String) (d : Desk)
    → has_uuid v (entries_of (serve running r d).file)
      ≡ wanted_after r v (has_uuid v (entries_of d.file))
unfolding remove_from_whitelist
has_uuid-serve running (removing uuid) v d = has_uuid-without uuid v (entries_of d.file)
has_uuid-serve running (adding name uuid) v d =
    elim (Bool-cases (has_uuid uuid (entries_of d.file))) [
      | inl e ↦ rw (entries-adding running name uuid d, e) (ground (arith, e, str_eq_iff uuid v))
      | inr e ↦
          rw (entries-adding running name uuid d, e)
            (has_uuid-append v (entries_of d.file) (record { uuid = uuid; name = name }))
    ]

serve-IsUnique :
    (running : Bool) (r : Request) (d : Desk)
    → IsUnique (entries_of d.file)
    → IsUnique (entries_of (serve running r d).file)
unfolding remove_from_whitelist
serve-IsUnique running (removing uuid) d u = without-IsUnique uuid (entries_of d.file) u
serve-IsUnique running (adding name uuid) d u =
    elim (Bool-cases (has_uuid uuid (entries_of d.file))) [
      | inl e ↦ rw (entries-adding running name uuid d, e) u
      | inr e ↦
          rw (entries-adding running name uuid d, e)
            (append-IsUnique (entries_of d.file) (record { uuid = uuid; name = name }) u e)
    ]

-- After any requests, at a server that runs or not, where every lookup and every write works: a uuid is
-- on the whitelist if the last request for it added it, or if it was on it and no request removed it;
-- and no uuid is there twice if none was before.
pub serve_all-wanted :
    (rs : List (Bool × Request)) (v : String) (d : Desk)
    → IsUnique (entries_of d.file)
    → (has_uuid v (entries_of (serve_all rs d).file) ≡ wanted rs v (has_uuid v (entries_of d.file)))
      × IsUnique (entries_of (serve_all rs d).file)
unfolding serve_all wanted
serve_all-wanted [] v d u = (refl, u)
serve_all-wanted ((running, r) ∷ rs) v d u =
    let (same, unique) = serve_all-wanted rs v (serve running r d) (serve-IsUnique running r d u) in
    (same ∙ ap (wanted rs v) (has_uuid-serve running r v d), unique)
