-- ===== src/Minecraft/Tests.antt =====
-- The theorems on backend/minecraft/java.go at concrete runtimes and versions.
use realmrunner.Common.{refl, [], ◌∷◌}
use realmrunner.Minecraft.Java.{Runtimes, resolve_java}
use realmrunner.Minecraft.Java.Choice.{IsLeast, resolve_java_satisfied}

abbrev runtimes : Runtimes
runtimes = (8, "/opt/java/8/bin/java") ∷ (21, "/opt/java/21/bin/java") ∷ []

resolve_java_satisfied_example : IsLeast runtimes 17 (resolve_java "" runtimes 17)
unfolding resolve_java
resolve_java_satisfied_example = resolve_java_satisfied runtimes 17 (λ e. cc) refl
