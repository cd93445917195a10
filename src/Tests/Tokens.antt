-- ===== src/Tests/Tokens.antt =====
-- A poste whose first offered token is lost on the way and whose second one is stored.
use natimai_tiai.Prelude.{
  ◌≡◌, refl, Bool, true, false, some, String, [], ◌∷◌, List, ◌==◌, string_eq,
}
use Prim.Native.String.{◌++◌ as text_append}
use natimai_tiai.Machine.{Machine, new_machine}
use natimai_tiai.Machine.TokenRotation.{authenticate, accepted, use_token, is_token_of}
use natimai_tiai.Machine.TokenRotation.Protocol.{
  Request, Link, IsHonoured, exchanges, no_lockout, promotion_retires,
}

abbrev hash : String → String
hash t = text_append "h:" t

abbrev poste : Machine
poste = record (new_machine 7 "a-poste" 0) { token_hash = some "h:t0" }

abbrev beat : String → Bool → Request
beat drawn stored = record {
  now = 2592000000000;
  heartbeat = true;
  supports_token_rotation = true;
  drawn = drawn;
  stored = stored;
}

abbrev beats : List Request
beats = beat "t1" false ∷ beat "t2" true ∷ []

abbrev link : Link
link = record { token = "t0"; row = poste }

link-IsHonoured : IsHonoured hash 30 link
unfolding is_token_of
link-IsHonoured = record { known = refl; live = refl }

no_lockout_example :
    let l' = exchanges hash 30 beats link in
    authenticate hash (l'.row ∷ []) (some l'.token) 2592000000001 ≡ (
      accepted (use_token hash l'.row l'.token 2592000000001),
      use_token hash l'.row l'.token 2592000000001 ∷ [],
    )
no_lockout_example = no_lockout hash 30 beats link [] 2592000000001 link-IsHonoured

abbrev offered : Machine
offered = record poste { pending_token_hash = some "h:t1" }

promotion_retires_example :
    is_token_of hash "t0" (use_token hash offered "t1" 5) ≡ (hash "t1" == hash "t0")
promotion_retires_example = promotion_retires hash 30 offered "t1" "t0" 5 refl refl refl
