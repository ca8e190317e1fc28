-- ===== src/Examples/Configs.antt =====
-- Witnesses and tests of the configuration.
use stupid_inference_router.Prelude.{◌≡◌, ◌↔◌, refl, some, In}
use stupid_inference_router.Float.Fixed.{fixed}
use stupid_inference_router.Config.Scheduler.{ok}
use stupid_inference_router.Config.Models.{served_names}
use stupid_inference_router.Config.App.{
  validate_app, model_by_name, model_by_served_name, add_new, served_model_names, member_of,
}
use stupid_inference_router.Config.Routing.{validate_app-routes}
use stupid_inference_router.Examples.Data.{an_app, chat_config}

app_valid : validate_app an_app ≡ ok an_app
unfolding validate_app add_new served_model_names member_of
app_valid = refl

validate_app-routes_example :
    ((model_by_served_name an_app.models "org/chat" ≡ some chat_config)
      ↔ (In chat_config an_app.models × In "org/chat" (served_names chat_config)))
    × (In chat_config an_app.models
        → model_by_name an_app.models chat_config.name ≡ some chat_config)
validate_app-routes_example = validate_app-routes an_app an_app chat_config "org/chat" app_valid
