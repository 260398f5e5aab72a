-- ===== src/Fleet/Client.antt =====
-- The client that the functions of the fleet share.
use cicd.Prelude.{
  ◌≡◌, refl, sym, ap, ◌∙◌, ◌⊎◌, inl, inr, Bool, true, false, Option, none, some, ◌∷◌, arith, Text,
  same, if◌then◌else◌,
}
use mathlib.Core.Path.{subst}
use cicd.Fleet.{Clients, Dialled, refused, unreachable, connected, dial, get_mongo_client}

abbrev Fits : Text → Option Text → Type 0
Fits last none = Unit
Fits last (some uri) = uri ≡ last

-- A shared client is connected to the last address.
abbrev pub IsCurrent : Clients → Type 0
IsCurrent c = Fits c.last_uri c.shared

-- The clients and the flag that a call leaves: the shared client is current, and a call that returns a
-- client has it connected to the address that was asked for.
abbrev pub IsServed : Text → Clients × Bool → Type 0
IsServed uri (c, ok) = IsCurrent c × ((ok ≡ false) ⊎ (c.shared ≡ some uri))

dial-IsServed :
    (a : Dialled) (uri : Text) (c : Clients) → c.shared ≡ none → IsServed uri (dial a uri c)
dial-IsServed refused uri c h = (subst (Fits c.last_uri) (sym h) tt, inl refl)
dial-IsServed unreachable uri c h = (subst (Fits c.last_uri) (sym h) tt, inl refl)
dial-IsServed connected uri c h = (refl, inr refl)

same-eq : (a b : Text) → same a b ≡ true → a ≡ b
same-eq a b h = ground arith

-- `getMongoClient` keeps the shared client current, whatever address is asked for and whatever the
-- connection does, and returns a client only if the shared one is connected to that address.
get_mongo_client-IsServed :
    (dials : Text → Dialled) (uri : Text) (c : Clients)
    → IsCurrent c
    → IsServed uri (get_mongo_client dials uri c)
unfolding get_mongo_client
get_mongo_client-IsServed dials uri c w = cases c.shared refl w
  where
    cases :
        (o : Option Text)
        → c.shared ≡ o
        → Fits c.last_uri o
        → IsServed uri (elim o [
          | none ↦ dial (dials uri) uri c
          | some old ↦
              if same c.last_uri uri
              then (c, true)
              else dial (dials uri) uri (record c { shared = none; closed = old ∷ c.closed })
        ])
    cases none e f = dial-IsServed (dials uri) uri c e
    cases (some old) e f = branch (same c.last_uri uri) refl
      where
        branch :
            (b : Bool)
            → same c.last_uri uri ≡ b
            → IsServed uri (
                if b
                then (c, true)
                else dial (dials uri) uri (record c { shared = none; closed = old ∷ c.closed }))
        branch true h = (w, inr (e ∙ ap some (f ∙ same-eq c.last_uri uri h)))
        branch false h =
            dial-IsServed (dials uri) uri (record c { shared = none; closed = old ∷ c.closed }) refl
