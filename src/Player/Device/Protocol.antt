-- ===== src/Player/Device/Protocol.antt =====
-- The life cycle that OpenSL ES 1.0.1 asks of its objects, as the code of
-- app/src/main/jni/audioplayer.cpp uses them.
use audio_sync.Base.{Option, none, some, List, [], ◌∷◌, ◌>>=◌}
use audio_sync.Player.Device.{
  SlObject, engine, output_mix, player, SlCall, create_engine, create_output_mix,
  create_audio_player, realize, get_interface, register_callback, set_rate, set_play_state, destroy,
}

-- An object can be used once it is realized.
pub data Life : Type 0 where
  absent : Life
  created : Life
  realized : Life

pub record Objects : Type 0 where
  pub engine_life : Life
  pub mix_life : Life
  pub player_life : Life

-- What an object can do next; `none` is a misuse.
abbrev pub create : Life → Option Life
create absent = some created
create created = none
create realized = none

abbrev pub complete : Life → Option Life
complete absent = none
complete created = some realized
complete realized = none

abbrev pub use_of : Life → Option Life
use_of absent = none
use_of created = none
use_of realized = some realized

abbrev pub none_of : Life → Option Life
none_of absent = some absent
none_of created = none
none_of realized = none

abbrev pub remove : Life → Option Life
remove absent = none
remove created = some absent
remove realized = some absent

abbrev pub on : SlObject → (Life → Option Life) → Objects → Option Objects
on engine f o = do e ← f o.engine_life; some (record o { engine_life = e })
on output_mix f o = do m ← f o.mix_life; some (record o { mix_life = m })
on player f o = do p ← f o.player_life; some (record o { player_life = p })

-- A player is made by the engine for the mix, and goes before the mix, which goes before the engine.
unfoldable pub follow : SlCall → Objects → Option Objects
follow create_engine o = on engine create o
follow create_output_mix o = do u ← on engine use_of o; on output_mix create u
follow (create_audio_player channels rate) o = do
  u ← on engine use_of o
  v ← on output_mix use_of u
  on player create v
follow (realize object) o = on object complete o
follow (get_interface object itf) o = on object use_of o
follow register_callback o = on player use_of o
follow (set_rate rate) o = on player use_of o
follow (set_play_state state) o = on player use_of o
follow (destroy engine) o = do u ← on output_mix none_of o; on engine remove u
follow (destroy output_mix) o = do u ← on player none_of o; on output_mix remove u
follow (destroy player) o = on player remove o

unfoldable pub follow_all : List SlCall → Objects → Option Objects
unfolding follow
follow_all [] o = some o
follow_all (c ∷ calls) o = follow c o >>= follow_all calls
