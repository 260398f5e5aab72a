-- ===== src/Dashboard/Create/Laws.antt =====
-- What creating a project does to the node.
use cicd.Prelude.{
  ℕ, zero, suc, ◌≡◌, ◌≢◌, refl, ◌⊎◌, Bool, true, false, ◌&&◌, Option, none, some, List, [], ◌∷◌,
  ◌++◌, take, arith, Text, codes, is_positive,
}
use cicd.Config.{Config}
use cicd.Paths.{dash, print, slugify, encode_to_string, random_hex}
use cicd.Paths.Slug.{slug_from, slugify-is_slug}
use cicd.Paths.Resolve.{Placement}
use cicd.Paths.Resolve.Placed.{IsPlaced}
use cicd.Dashboard.{Dashboard, Answer, created, check_port_conflict}
use cicd.Dashboard.Create.{
  CreateRequest, CreateEnv, all_name_chars, is_valid_username, suffix_or, default_user,
  project_config, register_and_deploy, path_request,
}

all_name_chars-append :
    (s t : Text)
    → all_name_chars s ≡ true
    → all_name_chars t ≡ true
    → all_name_chars (s ++ t) ≡ true
unfolding all_name_chars
all_name_chars-append [] t h k = k
all_name_chars-append (c ∷ s) t h k = ground (arith, all_name_chars-append s t)

slug-name_chars : (d : Bool) (s : Text) → slug_from d s ≡ true → all_name_chars s ≡ true
unfolding slug_from all_name_chars
slug-name_chars d [] h = refl
slug-name_chars d (c ∷ s) h = ground (arith, slug-name_chars true s, slug-name_chars false s)

encode-name_chars : (bs : List ℕ) → all_name_chars (encode_to_string bs) ≡ true
unfolding encode_to_string all_name_chars
encode-name_chars [] = refl
encode-name_chars (b ∷ bs) = ground (arith, encode-name_chars bs)

take-name_chars : (n : ℕ) (s : Text) → all_name_chars s ≡ true → all_name_chars (take n s) ≡ true
unfolding all_name_chars
take-name_chars zero s h = refl
take-name_chars (suc n) [] h = refl
take-name_chars (suc n) (c ∷ s) h = ground (arith, take-name_chars n s)

suffix-name_chars :
    (o : Option (List ℕ)) (number : Text)
    → all_name_chars number ≡ true
    → all_name_chars (suffix_or (random_hex 6 o) number) ≡ true
unfolding random_hex
suffix-name_chars none number h = h
suffix-name_chars (some bytes) number h =
    take-name_chars 6 (encode_to_string bytes) (encode-name_chars bytes)

valid_parts :
    (a b : Text)
    → all_name_chars a ≡ true
    → all_name_chars b ≡ true
    → is_valid_username (codes "cicd_usr_" ++ (a ++ dash ∷ b)) ≡ true
unfolding is_valid_username all_name_chars
valid_parts a b h k = all_name_chars-append a (dash ∷ b) h k

-- The name that is made for the service user passes the test of `SetupProjectFolder`, if the digits of
-- the fallback do.
default_user-valid :
    (env : CreateEnv) (service_name : Text)
    → all_name_chars env.user_number ≡ true
    → is_valid_username (default_user env service_name) ≡ true
unfolding default_user
default_user-valid env service_name h =
    valid_parts (slugify env.disk.to_lower service_name)
      (suffix_or (random_hex 6 env.user_random) env.user_number)
      (slug-name_chars true (slugify env.disk.to_lower service_name)
        (slugify-is_slug env.disk.to_lower service_name))
      (suffix-name_chars env.user_random env.user_number h)

-- A project was created: its directory is placed, its user has a name that the system can take, its
-- port was free, and the state is the one with the project in the table and a deployment of it in its
-- queue.
pub record IsCreated (env : CreateEnv) (cfg : Config) (r : CreateRequest) (d e : Dashboard)
    (p : Placement) : Type 0 where
  pub placed : IsPlaced env.disk (path_request r d.projects) p
  pub user : is_valid_username r.service_user ≡ true
  pub port : (is_positive r.webhook_port && check_port_conflict r.webhook_port 0 d.projects) ≡ false
  pub after : e ≡ register_and_deploy env.registers (project_config cfg r (print p.final_path)) d

-- Nothing was done, or a project was created.
abbrev pub IsAnswered : CreateEnv → Config → CreateRequest → Dashboard → Dashboard × Answer → Type 0
IsAnswered env cfg r d (e, a) =
    ((e ≡ d) × (a ≢ created)) ⊎ ((a ≡ created) × ((p : Placement) × IsCreated env cfg r d e p))
