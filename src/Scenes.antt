-- ===== src/Scenes.antt =====
-- The scenes that a SceneServer runs: Scene.{h,cpp}, CopyScene and SceneManager of SceneServer.
pub mod Scene
pub mod Players
pub mod Manager
pub mod Index
pub mod Histories
mod Tests
