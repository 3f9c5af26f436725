-- ===== src/Youtube/Actions.antt =====
-- The names of the actions of src/youtube.rs.
use act_api_server_rs.Prelude.{◌≡◌, refl, ◌↔◌, some, List, [], ◌∷◌, arith, Bool, true, all}
use act_api_server_rs.Text.{Text, txt, text_eq}
use act_api_server_rs.Text.Laws.{text_eq_iff}
use act_api_server_rs.Youtube.{
  YoutubeAction, add_to_playlist, admin_status, analytics, arms, as_str, channel, create_playlist,
  export_analytics, first_arm, ingest_gmail, jobs, parse, partner_claims, partner_owners,
  partner_status, process_all_uploads, process_upload, publish_video, send_digest, start_upload,
  update_video, videos, workspace_users,
}

named : (a : YoutubeAction) → parse (as_str a) ≡ some a
unfolding parse as_str text_eq txt
named channel = refl
named videos = refl
named analytics = refl
named export_analytics = refl
named jobs = refl
named start_upload = refl
named process_upload = refl
named process_all_uploads = refl
named publish_video = refl
named update_video = refl
named create_playlist = refl
named add_to_playlist = refl
named ingest_gmail = refl
named send_digest = refl
named partner_status = refl
named partner_owners = refl
named partner_claims = refl
named admin_status = refl
named workspace_users = refl

-- Whether an arm pairs an action with its own name.
abbrev is_named : Text × YoutubeAction → Bool
is_named arm = text_eq arm.0 (as_str arm.1)

arms_named : all is_named arms ≡ true
unfolding as_str text_eq txt
arms_named = refl

first_arm_named :
    (value : Text) (a : YoutubeAction) (l : List (Text × YoutubeAction))
    → all is_named l ≡ true
    → first_arm value l ≡ some a
    → value ≡ as_str a
unfolding first_arm
first_arm_named value a [] h e = cc
first_arm_named value a ((name, action) ∷ rest) h e =
    ground (
      arith,
      text_eq_iff name value,
      text_eq_iff name (as_str action),
      first_arm_named value a rest,
    )

-- `parse` and `as_str` are inverse to each other: an action is read from its own name and from no
-- other text.
pub parse_iff : (value : Text) (a : YoutubeAction) → (parse value ≡ some a) ↔ (value ≡ as_str a)
unfolding parse
parse_iff value a = (first_arm_named value a arms arms_named, λ e. rw e (named a))
