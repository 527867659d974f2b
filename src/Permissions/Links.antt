-- ===== src/Permissions/Links.antt =====
-- The locks of a link: they bind whoever sees the recording by the link alone, and nobody else.
use soriham_api.Prelude.{◌≡◌, ◌≢◌, ◌↔◌, ◌⊎◌, true, List, arith, is_some}
use soriham_api.Models.{WorkspaceMember, RecordingShare, Recording}
use soriham_api.Permissions.{
  Perm, Principal, resolve_own_perm, can_play_audio, can_see_speaker_names,
}

module _ (members : List WorkspaceMember) (shares : List RecordingShare) (p : Principal)
    (r : Recording) where
  -- Audio is played exactly for who has a permission of their own on the recording, or came by a
  -- link that allows audio; names of speakers are shown by the same rule with the link's other lock.
  pub locks_exact :
      (can_play_audio p (resolve_own_perm members shares p r) ≡ true ↔ (
        (resolve_own_perm members shares p r ≢ Perm.none)
        ⊎ (p.link_allows_audio ≡ true) × (is_some p.link_recording_id ≡ true)))
      × (can_see_speaker_names p (resolve_own_perm members shares p r) ≡ true ↔ (
          (resolve_own_perm members shares p r ≢ Perm.none)
          ⊎ (p.link_allows_speaker_names ≡ true) × (is_some p.link_recording_id ≡ true)))
  unfolding can_play_audio can_see_speaker_names
  locks_exact = locks (resolve_own_perm members shares p r)
    where
      locks :
          (own : Perm)
          → (can_play_audio p own ≡ true ↔ (
              (own ≢ Perm.none)
              ⊎ (p.link_allows_audio ≡ true) × (is_some p.link_recording_id ≡ true)))
            × (can_see_speaker_names p own ≡ true ↔ (
                (own ≢ Perm.none)
                ⊎ (p.link_allows_speaker_names ≡ true) × (is_some p.link_recording_id ≡ true)))
      locks Perm.none =
          ((λ h. ground arith, λ h. ground arith), (λ h. ground arith, λ h. ground arith))
      locks other = ((λ h. ground arith, λ h. ground arith), (λ h. ground arith, λ h. ground arith))
